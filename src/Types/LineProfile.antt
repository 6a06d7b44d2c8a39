-- ===== src/Types/LineProfile.antt =====
-- types/line_profile.go: line profiles, DBA and traffic profiles, and their validation.
pub mod Validity
use nano_southbound.Prelude.{
  ℕ, suc, ◌+◌, Bool, true, false, not, ◌&&◌, Option, none, some, List, [], ◌∷◌, if◌then◌else◌,
  is_empty, exists, ℤ, pos, eqb_ℤ,
}
use nano_southbound.Go.Text.{Text, codes}
use nano_southbound.Go.Result.{Result, ok, err, ◌>>=◌, ◌>>◌, Check, reject_if, each, if_present}
use nano_southbound.Types.Check.{
  Error, missing, nil_tcont, unknown_tcont, validate_range, validate_optional, validate_cos,
}
use nano_southbound.Types.VlanList.{LineProfileMvlan, validate_mvlan}

pub record LineProfileService : Type 0 where
  pub name : Text
  pub gemport_id : ℤ
  pub vlan : ℤ
  pub cos : Text

pub record LineProfileServicePort : Type 0 where
  pub id : ℤ
  pub gemport_id : ℤ
  pub user_vlan : ℤ
  pub vlan : ℤ
  pub admin_status : Text
  pub description : Text

pub record LineProfileGemport : Type 0 where
  pub id : ℤ
  pub name : Text
  pub tcont_id : ℤ
  pub traffic_limit_up : Text
  pub traffic_limit_dn : Text
  pub encrypt : Option Bool
  pub state : Text
  pub down_queue_map_id : Option ℤ
  pub services : List (Option LineProfileService)
  pub service_ports : List (Option LineProfileServicePort)

pub record LineProfileTcont : Type 0 where
  pub id : ℤ
  pub name : Text
  pub dba : Text
  pub gemports : List (Option LineProfileGemport)

pub record LineProfile : Type 0 where
  pub name : Text
  pub id : Option ℤ
  pub tconts : List (Option LineProfileTcont)
  pub mvlan : Option LineProfileMvlan
  pub committed : Option Bool

pub record DbaProfile : Type 0 where
  pub id : ℤ
  pub name : Text
  pub type : ℤ
  pub fixed_bw : ℤ
  pub assured_bw : ℤ
  pub max_bw : ℤ

pub record TrafficProfile : Type 0 where
  pub id : ℤ
  pub name : Text
  pub sir : ℤ
  pub pir : ℤ

-- `(s *LineProfileService) Validate`, for a service that is there
pub validate_service : LineProfileService → Check Error
validate_service s = do
  reject_if (is_empty s.name) (missing (codes "service name"))
  validate_range (codes "service gemport id") s.gemport_id (pos 1) (pos 255)
  validate_optional (codes "service vlan") s.vlan (pos 1) (pos 4094)
  validate_cos s.cos

-- `(s *LineProfileServicePort) Validate`
pub validate_service_port : LineProfileServicePort → Check Error
validate_service_port s = do
  validate_range (codes "service-port id") s.id (pos 1) (pos 128)
  validate_range (codes "service-port gemport id") s.gemport_id (pos 1) (pos 255)
  validate_optional (codes "service-port uservlan") s.user_vlan (pos 1) (pos 4094)
  validate_optional (codes "service-port vlan") s.vlan (pos 1) (pos 4094)

abbrev pub among : List ℤ → ℤ → Bool
among ids v = exists (λ i. eqb_ℤ i v) ids

-- `(g *LineProfileGemport) Validate`, given the ids of the T-CONTs so far
pub validate_gemport : List ℤ → LineProfileGemport → Check Error
validate_gemport tcont_ids g = do
  validate_range (codes "gemport id") g.id (pos 1) (pos 255)
  reject_if (eqb_ℤ g.tcont_id (pos 0)) (missing (codes "gemport tcont id"))
  validate_range (codes "gemport tcont id") g.tcont_id (pos 1) (pos 255)
  reject_if (not (is_empty tcont_ids) && not (among tcont_ids g.tcont_id))
      (unknown_tcont g.tcont_id)
  each (if_present validate_service) g.services
  each (if_present validate_service_port) g.service_ports

-- The loop over the T-CONTs, from the index `idx` on; `tcont_ids` are the ids before it.
pub validate_tconts : ℕ → List ℤ → List (Option LineProfileTcont) → Check Error
validate_tconts idx tcont_ids [] = ok tt
validate_tconts idx tcont_ids (none ∷ rest) = err (nil_tcont idx)
validate_tconts idx tcont_ids (some t ∷ rest) =
    let later = validate_tconts (suc idx) (t.id ∷ tcont_ids) rest in
    do
      validate_range (codes "tcont id") t.id (pos 1) (pos 255)
      each (if_present (validate_gemport (t.id ∷ tcont_ids))) t.gemports
      later

-- `if p.Mvlan != nil { p.Mvlan.Validate() }`, with the mvlan that it leaves
pub validate_mvlan_ptr : Option LineProfileMvlan → Result Error (Option LineProfileMvlan)
validate_mvlan_ptr none = ok none
validate_mvlan_ptr (some m) = do m' ← validate_mvlan m; ok (some m')

-- `(p *LineProfile) Validate`: the profile that it leaves, since a raw VLAN list is parsed into it
unfoldable pub validate : Option LineProfile → Result Error LineProfile
unfolding validate_mvlan_ptr
validate none = err (missing (codes "profile"))
validate (some p) = do
  reject_if (is_empty p.name) (missing (codes "profile name"))
  validate_tconts 0 [] p.tconts
  m ← validate_mvlan_ptr p.mvlan
  ok (record p { mvlan = m })
