-- ===== src/Vsol/LineProfile/Tokens.antt =====
-- vendors/vsol/line_profile.go: the commands of T-CONTs and GEM ports, and the parsers of their lines.
use nano_southbound.Prelude.{
  ap, ◌∙◌, append-nil, ℕ, ◌≡◌, ◌≢◌, ◌⊎◌, inl, inr, refl, List, [], ◌∷◌, arith, All, ℤ,
}
use nano_southbound.Go.Text.{text_eq_iff, Text, codes, text_eq, fields, join, is_space}
use nano_southbound.Go.Text.Words.{IsWord, fields-join}
use nano_southbound.Go.Number.{itoa, atoi-itoa, InRange}
use nano_southbound.Go.Decimal.{itoa-IsWord}
use nano_southbound.Go.Result.{ok}
use nano_southbound.Types.LineProfile.{LineProfileGemport, LineProfileTcont}
use nano_southbound.Vsol.LineProfile.{tcont_command}
use nano_southbound.Vsol.LineProfile.Lines.{
  with_id, traffic_limits, parse_line_profile_tcont, parse_line_profile_gemport, tcont_options,
  gemport_options, new_tcont, new_gemport,
}

-- A value that is left out, or a single word.
abbrev pub IsOption : Text → Type 0
IsOption v = (v ≡ []) ⊎ IsWord is_space v

unfoldable pub words : List Text → Text
unfolding join
words ts = join ts (codes " ")

pub fields-words : (ts : List Text) → All (IsWord is_space) ts → fields (words ts) ≡ ts
fields-words ts h = unfold words in fields-join ts h

pub option-IsWord : (c : ℕ) (s : Text) → IsOption (c ∷ s) → IsWord is_space (c ∷ s)
option-IsWord c s (inl e) = absurd (cc)
option-IsWord c s (inr w) = w

pub with_id-itoa :
    {A : Type 0} (kind line a : Text) (id : ℤ) (ts : List Text) (f : ℤ → List Text → A)
    → InRange id
    → with_id kind line (a ∷ itoa id ∷ ts) f ≡ ok (f id ts)
with_id-itoa kind line a id ts f h = ground (arith, atoi-itoa id h)

tcont_line :
    (id : ℤ) (ts : List Text)
    → InRange id
    → All (IsWord is_space) ts
    → parse_line_profile_tcont (words (codes "tcont" ∷ itoa id ∷ ts))
      ≡ ok (tcont_options (new_tcont id) ts)
unfolding parse_line_profile_tcont
tcont_line id ts h w =
    rw (fields-words (codes "tcont" ∷ itoa id ∷ ts) ((λ e. cc, refl), (itoa-IsWord id, w))) (
      with_id-itoa (codes "tcont") (words (codes "tcont" ∷ itoa id ∷ ts)) (codes "tcont") id ts
        (λ i rest. tcont_options (new_tcont i) rest) h)

tcont_parts :
    (id : ℤ) (name dba : Text)
    → InRange id
    → IsOption name
    → IsOption dba
    → parse_line_profile_tcont
        (tcont_command (record { id = id; name = name; dba = dba; gemports = [] }))
      ≡ ok (record { id = id; name = name; dba = dba; gemports = [] })
unfolding tcont_command words tcont_options text_eq
tcont_parts id [] [] h n d = simp append-nil (tcont_line id [] h tt)
tcont_parts id [] (x ∷ dba) h n d =
    tcont_line id (codes "dba" ∷ (x ∷ dba) ∷ []) h ((λ e. cc, refl), (option-IsWord x dba d, tt))
tcont_parts id (c ∷ name) [] h n d = simp append-nil (
    tcont_line id (codes "name" ∷ (c ∷ name) ∷ []) h
      ((λ e. cc, refl), (option-IsWord c name n, tt)))
tcont_parts id (c ∷ name) (x ∷ dba) h n d =
    tcont_line id (codes "name" ∷ (c ∷ name) ∷ codes "dba" ∷ (x ∷ dba) ∷ []) h
      ((λ e. cc, refl), (option-IsWord c name n, ((λ e. cc, refl), (option-IsWord x dba d, tt))))

-- If the id of a T-CONT is an int of 64 bits, and its name and its DBA profile are each empty or one
-- word without blanks, its command is read back as that T-CONT with no GEM ports: id, name and DBA
-- profile.
pub parse-tcont_command :
    (t : LineProfileTcont)
    → InRange t.id
    → IsOption t.name
    → IsOption t.dba
    → parse_line_profile_tcont (tcont_command t) ≡ ok (record t { gemports = [] })
parse-tcont_command t h n d = unfold tcont_command in tcont_parts t.id t.name t.dba h n d

gemport_line :
    (id : ℤ) (ts : List Text)
    → InRange id
    → All (IsWord is_space) ts
    → parse_line_profile_gemport (words (codes "gemport" ∷ itoa id ∷ ts))
      ≡ ok (gemport_options (new_gemport id) ts)
unfolding parse_line_profile_gemport
gemport_line id ts h w =
    rw (fields-words (codes "gemport" ∷ itoa id ∷ ts) ((λ e. cc, refl), (itoa-IsWord id, w))) (
      with_id-itoa (codes "gemport") (words (codes "gemport" ∷ itoa id ∷ ts)) (codes "gemport") id
        ts (λ i rest. gemport_options (new_gemport i) rest) h)

limits_end :
    (g : LineProfileGemport) (up dn k v : Text) (rest : List Text)
    → k ≢ codes "up-stream"
    → k ≢ codes "down-stream"
    → gemport_options g
        (codes "traffic-limit" ∷ codes "up-stream" ∷ up ∷ codes "down-stream" ∷ dn ∷ k ∷ v ∷ rest)
      ≡ record g { traffic_limit_up = up; traffic_limit_dn = dn }
unfolding gemport_options traffic_limits text_eq
limits_end g up dn k v rest nu nd =
    ground (arith, text_eq_iff k (codes "up-stream"), text_eq_iff k (codes "down-stream"))

-- An option behind the two traffic limits of a GEM port is lost: whatever options follow, as long as
-- the first is no limit and has a value, the GEM port has the limits and nothing else.
pub gemport_options_lost :
    (id : ℤ) (up dn k v : Text) (rest : List Text)
    → InRange id
    → All (IsWord is_space) (up ∷ dn ∷ k ∷ v ∷ rest)
    → k ≢ codes "up-stream"
    → k ≢ codes "down-stream"
    → parse_line_profile_gemport (
        join
          (codes "gemport"
            ∷ itoa id
            ∷ codes "traffic-limit"
            ∷ codes "up-stream"
            ∷ up
            ∷ codes "down-stream"
            ∷ dn
            ∷ k
            ∷ v
            ∷ rest)
          (codes " "))
      ≡ ok (record (new_gemport id) { traffic_limit_up = up; traffic_limit_dn = dn })
gemport_options_lost id up dn k v rest h (wu, (wd, w)) nu nd =
    unfold words in
    gemport_line id
      (codes "traffic-limit" ∷ codes "up-stream" ∷ up ∷ codes "down-stream" ∷ dn ∷ k ∷ v ∷ rest) h
      ((λ e. cc, refl), ((λ e. cc, refl), (wu, ((λ e. cc, refl), (wd, w)))))
    ∙ ap ok (limits_end (new_gemport id) up dn k v rest nu nd)
