-- ===== src/Json/Messages/UserData.antt =====
-- The user data that a `JsonClient` keeps for its subscriptions.
use auroralink.Prelude.{
  true_not_false, ℕ, ◌+◌, ◌≡◌, ◌≢◌, ◌<◌, ◌≤◌, ◌⊎◌, refl, inl, inr, sym, subst, ◌∙◌, Text, List, [],
  ◌∷◌, ◌++◌, length, length-append, take, take-append, drop, drop-append, All, All-weaken,
  All-append, Bool-cases, arith,
}
use auroralink.Prelude.Eq.{nat_eq, text_eq, pair_eq}
use auroralink.Status.{ok}
use auroralink.Config.Types.{EgdPageInfo}
use auroralink.Client.Types.{EgdSubCallbackInfo, EgdSubKey, Resolver, Replies}
use auroralink.Client.Subscribe.{subscribe}
use auroralink.Client.Subscribe.Lifetime.{callbacks_at, subscribe_adds, subscribe_elsewhere}
use auroralink.Json.Messages.{JsonUserData, JsonClient, subscribe_json}

-- A callback of a client with `n` pieces of user data: the proxy, with a pointer to one of them.
abbrev pub PointsInto : ℕ → ℕ → EgdSubCallbackInfo → Type 0
PointsInto proxy n cb = (cb.callback ≡ proxy) × (cb.user_data < n)

-- Every callback that the client holds does.
abbrev pub IsLinked : ℕ → JsonClient → Type 0
IsLinked proxy c =
    (k : EgdSubKey) → All (PointsInto proxy (length c.json_user_data)) (callbacks_at k c.base)

more_data :
    (proxy n m : ℕ) (cbs : List EgdSubCallbackInfo)
    → n ≤ m
    → All (PointsInto proxy n) cbs
    → All (PointsInto proxy m) cbs
more_data proxy n m cbs h =
    All-weaken (PointsInto proxy n) (PointsInto proxy m) cbs
      (λ cb points. (points.0, omega (arith, points.1)))

module _ (proxy : ℕ) (r : Resolver) (s : Replies) (c : JsonClient) (h : Text) (p : ℕ)
    (page : EgdPageInfo) (callback user_data : ℕ) where
  abbrev old : ℕ
  old = length c.json_user_data

  abbrev mine : JsonUserData
  mine = record { callback = callback; user_data = user_data }

  -- What the base class is given.
  abbrev pub proxied : EgdSubCallbackInfo
  proxied = record { callback = proxy; page_info = page; user_data = old }

  subscribe-PointsInto :
      (k : EgdSubKey)
      → All (PointsInto proxy (old + 1)) (callbacks_at (h, p) c.base)
      → All (PointsInto proxy (old + 1)) (callbacks_at k c.base)
      → All (PointsInto proxy (old + 1)) (callbacks_at k (subscribe r s c.base h p proxied).0)
  subscribe-PointsInto k here_points points = elim (Bool-cases (pair_eq.beq (h, p) k)) [
    | inl same ↦
        subst
          (λ (j : EgdSubKey).
            All (PointsInto proxy (old + 1)) (callbacks_at j (subscribe r s c.base h p proxied).0))
          ((pair_eq.beq_iff (h, p) k).0 same)
          (elim (subscribe_adds r s c.base h p proxied) [
            | inl (_, added) ↦ rw added (
                All-append (PointsInto proxy (old + 1)) (callbacks_at (h, p) c.base) (proxied ∷ [])
                  here_points ((refl, omega arith), tt))
            | inr (_, unchanged) ↦ rw unchanged here_points
          ])
    | inr other ↦
        rw
          (subscribe_elsewhere r s c.base h p proxied k
            (λ e. true_not_false (sym ((pair_eq.beq_iff (h, p) k).1 (sym e)) ∙ other)))
          points
  ]

  -- In a client whose callbacks all are the proxy with a pointer to user data that is kept, a
  -- subscription keeps that so, and keeps all the user data where it is, with the new one behind
  -- it. Where its status is `ok` the endpoint has one callback more, the proxy with a pointer to
  -- just that user data; elsewhere the endpoints are as they were.
  pub subscribe_json-IsLinked :
      IsLinked proxy c
      → let (c', status, _) = subscribe_json proxy r s c h p page callback user_data in
        IsLinked proxy c'
        × (take old c'.json_user_data ≡ c.json_user_data)
        × (drop proxied.user_data c'.json_user_data ≡ mine ∷ [])
        × (((status ≡ ok)
              × (callbacks_at (h, p) c'.base ≡ callbacks_at (h, p) c.base ++ proxied ∷ []))
            ⊎ ((status ≢ ok) × (c'.base ≡ c.base)))
  unfolding subscribe_json
  subscribe_json-IsLinked linked =
      let one_more = length-append c.json_user_data (mine ∷ []) in
      let widen : (k : EgdSubKey) → All (PointsInto proxy (old + 1)) (callbacks_at k c.base) =
        λ k. more_data proxy old (old + 1) (callbacks_at k c.base) (omega arith) (linked k) in
      (
        λ k. rw one_more (subscribe-PointsInto k (widen (h, p)) (widen k)),
        take-append c.json_user_data (mine ∷ []),
        drop-append c.json_user_data (mine ∷ []),
        subscribe_adds r s c.base h p proxied,
      )
