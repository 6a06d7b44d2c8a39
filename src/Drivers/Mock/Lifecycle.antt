-- ===== src/Drivers/Mock/Lifecycle.antt =====
-- drivers/mock/driver.go: what the calls change in the status of subscribers, and what they keep.
use nano_southbound.Prelude.{◌≡◌, ◌∙◌, ap, is_some, refl, true, Option, none, some, if◌then◌else◌}
use nano_southbound.Go.Text.{Text, codes, text_eq, text_eq_iff}
use nano_southbound.Go.Map.{lookup, lookup-insert, lookup-delete}
use nano_southbound.Go.Result.{ok, err}
use nano_southbound.Model.Subscriber.{Subscriber}
use nano_southbound.Model.ServiceTier.{ServiceTier}
use nano_southbound.Drivers.Mock.State.{
  MockSubscriber, Driver, World, online, suspended, not_found, new_subscriber, status_of, result_of,
}
use nano_southbound.Drivers.Mock.Calls.{
  next_onu_id, create_subscriber, delete_subscriber, suspend_subscriber, resume_subscriber,
  set_state, remove, provisioned, create_unless,
}
use nano_southbound.Drivers.Mock.Status.{
  if_twice, if_exists-some, guarded-true, status, changed-status, store-status,
}

module _ {C T F : Type 0} (w : World T) (d : Driver C T F) where
  -- The driver after a suspension
  abbrev paused : Text → MockSubscriber T → Driver C T F
  paused id sub = (set_state suspended (codes "onu disable ") id sub d).1

  suspend-eq :
      (id : Text) (sub : MockSubscriber T)
      → d.connected ≡ true
      → lookup id d.subscribers ≡ some sub
      → suspend_subscriber id d ≡ (ok tt, paused id sub)
  unfolding suspend_subscriber
  suspend-eq id sub c found =
      if_exists-some id (set_state suspended (codes "onu disable ") id) d sub c found

  paused-lookup :
      (id : Text) (sub : MockSubscriber T)
      → lookup id (paused id sub).subscribers ≡ some (record sub { state = suspended })
  paused-lookup id sub =
      lookup-insert id id (record sub { state = suspended }) d.subscribers
      ∙ rw ((text_eq_iff id id).1 refl)

  -- What a resumption makes of it
  abbrev resumed : Text → MockSubscriber T → Driver C T F
  resumed id sub =
      (set_state online (codes "no onu disable ") id (record sub { state = suspended })
        (paused id sub)).1

  resume-eq :
      (id : Text) (sub : MockSubscriber T)
      → d.connected ≡ true
      → resume_subscriber id (paused id sub) ≡ (ok tt, resumed id sub)
  unfolding resume_subscriber
  resume-eq id sub c =
      if_exists-some id (set_state online (codes "no onu disable ") id) (paused id sub)
        (record sub { state = suspended }) c (paused-lookup id sub)

  -- On a connected device that has the subscriber `sub` under `id`: suspending it and then resuming it
  -- succeeds. In between its status is that of `sub` with the state "suspended", afterwards with the
  -- state "online"; the status of every other subscriber stays as it was.
  pub suspend-resume :
      (id k : Text) (sub : MockSubscriber T)
      → d.connected ≡ true
      → lookup id d.subscribers ≡ some sub
      → let paused = (suspend_subscriber id d).1 in
        let resumed = (resume_subscriber id paused).1 in
        ((suspend_subscriber id d).0 ≡ ok tt)
        × ((resume_subscriber id paused).0 ≡ ok tt)
        × (status w k paused ≡ (
            if text_eq id k
            then ok (status_of w k (record sub { state = suspended }))
            else status w k d))
        × (status w k resumed ≡ (
            if text_eq id k
            then ok (status_of w k (record sub { state = online }))
            else status w k d))
  suspend-resume id k sub c found =
      rw (suspend-eq id sub c found, resume-eq id sub c)
        (
          refl,
          refl,
          store-status w id k _ (record sub { state = suspended }) d c,
          store-status w id k _ (record sub { state = online }) (paused id sub) c
              ∙ ap
                  (λ x.
                    if text_eq id k then ok (status_of w k (record sub { state = online })) else x)
                  (store-status w id k _ (record sub { state = suspended }) d c)
              ∙ if_twice (text_eq id k) _ _ _,
        )

  -- On a connected device that has a subscriber under `id`: deleting it succeeds, and then there is no
  -- status for `id`, and the status of every other subscriber stays as it was.
  pub delete_subscriber-status :
      (id k : Text) (sub : MockSubscriber T)
      → d.connected ≡ true
      → lookup id d.subscribers ≡ some sub
      → ((delete_subscriber id d).0 ≡ ok tt)
        × (status w k (delete_subscriber id d).1
            ≡ (if text_eq id k then err (not_found k) else status w k d))
  unfolding delete_subscriber
  delete_subscriber-status id k sub c found =
      let done = if_exists-some id (remove id) d sub c found in
      (
        ap (λ x. x.0) done,
        ap (λ x. status w k x.1) done
            ∙ changed-status w (text_eq id k) none k d (remove id sub d).1 c c
                (lookup-delete id k d.subscribers),
      )

  -- On a connected device that has no subscriber of this name, and where the context does not end the
  -- wait: creating the subscriber succeeds with the next ONU id, and then its status is that of the new
  -- subscriber, which is online, and the status of every other subscriber stays as it was.
  pub create_subscriber-status :
      (now : World T) (s : Subscriber) (tier : ServiceTier) (k : Text)
      → d.connected ≡ true
      → now.done ≡ none
      → lookup s.name d.subscribers ≡ none
      → let sub = new_subscriber now (next_onu_id d) s in
        ((create_subscriber now s tier d).0 ≡ ok (result_of now (next_onu_id d) s sub))
        × (status w k (create_subscriber now s tier d).1
            ≡ (if text_eq s.name k then ok (status_of w k sub) else status w k d))
  unfolding create_subscriber
  create_subscriber-status now s tier k c free new =
      let sub = new_subscriber now (next_onu_id d) s in
      let made =
        guarded-true d.connected _ d c
        ∙ made-of now s tier (lookup s.name d.subscribers) now.done new free in
      (
        ap (λ x. x.0) made,
        ap (λ x. status w k x.1) made
            ∙ changed-status w (text_eq s.name k) (some sub) k d (provisioned now s tier d) c c
                (lookup-insert s.name k sub d.subscribers),
      )
    where
      made-of :
          (now : World T) (s : Subscriber) (tier : ServiceTier) (o : Option (MockSubscriber T))
          (stop : Option Text)
          → o ≡ none
          → stop ≡ none
          → create_unless (is_some o) stop now s tier d ≡ (
            ok (result_of now (next_onu_id d) s (new_subscriber now (next_onu_id d) s)),
            provisioned now s tier d,
          )
      made-of now s tier (some x) stop h g = cc
      made-of now s tier none (some x) h g = cc
      made-of now s tier none none h g = refl
