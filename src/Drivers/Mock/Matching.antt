-- ===== src/Drivers/Mock/Matching.antt =====
-- The subscribers and the statistics of the simulated device under the same names.
use nano_southbound.Prelude.{◌≡◌, ◌⊎◌, inl, inr, Option, none, some, Bool-cases}
use nano_southbound.Go.Text.{Text, text_eq, text_eq_iff}
use nano_southbound.Go.Map.{Map, lookup, insert, delete, lookup-insert, lookup-delete}
use nano_southbound.Drivers.Mock.State.{MockSubscriber, SubscriberStats, online, suspended}

-- A subscriber that is stored under `k`: it has that name, and one of the two states.
abbrev pub IsStored : {T : Type 0} → Text → MockSubscriber T → Type 0
IsStored k sub = (sub.id ≡ k) × ((sub.state ≡ online) ⊎ (sub.state ≡ suspended))

-- What is stored under `k`: a subscriber and its statistics, or neither
abbrev pub Entry :
    {T : Type 0} → Text → Option (MockSubscriber T) → Option (SubscriberStats T) → Type 0
Entry k none none = Unit
Entry k (some sub) (some s) = IsStored k sub
Entry k none (some s) = ⊥
Entry k (some sub) none = ⊥

abbrev pub Match : {T : Type 0} → Map (MockSubscriber T) → Map (SubscriberStats T) → Type 0
Match subs stats = (k : Text) → Entry k (lookup k subs) (lookup k stats)

module _ {T : Type 0} where
  pub Match-put :
      (id : Text) (sub : MockSubscriber T) (s : SubscriberStats T) (subs : Map (MockSubscriber T))
      (stats : Map (SubscriberStats T))
      → IsStored id sub
      → Match subs stats
      → Match (insert id sub subs) (insert id s stats)
  Match-put id sub s subs stats h m k = elim (Bool-cases (text_eq id k)) [
    | inl e ↦
        rw (lookup-insert id k sub subs, lookup-insert id k s stats, e, ← (text_eq_iff id k).0 e) h
    | inr e ↦ rw (lookup-insert id k sub subs, lookup-insert id k s stats, e) (m k)
  ]

  pub Match-delete :
      (id : Text) (subs : Map (MockSubscriber T)) (stats : Map (SubscriberStats T))
      → Match subs stats
      → Match (delete id subs) (delete id stats)
  Match-delete id subs stats m k = elim (Bool-cases (text_eq id k)) [
    | inl e ↦ rw (lookup-delete id k subs, lookup-delete id k stats, e) tt
    | inr e ↦ rw (lookup-delete id k subs, lookup-delete id k stats, e) (m k)
  ]

  pub Entry-some :
      (k : Text) (sub : MockSubscriber T) (o : Option (SubscriberStats T))
      → Entry k (some sub) o
      → IsStored k sub
  Entry-some k sub (some s) h = h
  Entry-some k sub none h = absurd h

  pub Entry-again :
      (k : Text) (old sub : MockSubscriber T) (o : Option (SubscriberStats T))
      → Entry k (some old) o
      → IsStored k sub
      → Entry k (some sub) o
  Entry-again k old sub (some s) h g = g
  Entry-again k old sub none h g = absurd h

  pub Match-store :
      (id : Text) (old sub : MockSubscriber T) (subs : Map (MockSubscriber T))
      (stats : Map (SubscriberStats T))
      → lookup id subs ≡ some old
      → IsStored id sub
      → Match subs stats
      → Match (insert id sub subs) stats
  Match-store id old sub subs stats found h m k = elim (Bool-cases (text_eq id k)) [
    | inl e ↦
        rw (lookup-insert id k sub subs, e, ← (text_eq_iff id k).0 e)
          (Entry-again id old sub (lookup id stats) (rw found at (m id)) h)
    | inr e ↦ rw (lookup-insert id k sub subs, e) (m k)
  ]

  pub Entry-stats :
      (k : Text) (o : Option (MockSubscriber T)) (old new : SubscriberStats T)
      → Entry k o (some old)
      → Entry k o (some new)
  Entry-stats k none old new h = absurd h
  Entry-stats k (some sub) old new h = h

  pub Match-stats :
      (id : Text) (old new : SubscriberStats T) (subs : Map (MockSubscriber T))
      (stats : Map (SubscriberStats T))
      → lookup id stats ≡ some old
      → Match subs stats
      → Match subs (insert id new stats)
  Match-stats id old new subs stats found m k = elim (Bool-cases (text_eq id k)) [
    | inl e ↦
        rw (lookup-insert id k new stats, e, ← (text_eq_iff id k).0 e)
          (Entry-stats id (lookup id subs) old new (rw found at (m id)))
    | inr e ↦ rw (lookup-insert id k new stats, e) (m k)
  ]
