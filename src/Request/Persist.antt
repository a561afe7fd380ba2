-- ===== src/Request/Persist.antt =====
-- What a change of state keeps: the trail of a request, and its events.
use cmorflow_tax_api.Common.{
  ◌⊎◌, refl, filter, map, Result, Bool, arith, err, false, ◌++◌, inr, ◌≢◌, inl, true, Bool-cases,
  some, ok, [], ◌≡◌, ◌∷◌, String, ℕ, List,
}
use cmorflow_tax_api.Request.{
  ErrorCode, events_for, moved, State, state_eq, is_transition_allowed, includes, notifiable_states,
  queued, processing, Request, HistoryEntry, OutboxEvent, persist_state, Store, apply_state,
  invalid_state_transition,
}
use mathlib.Core.List.{append-nil, map-append}
use cmorflow_tax_api.Request.Transitions.{state_eq_sound, state_eq_refl}

-- A claim moves a request from `queued` to `processing` and writes no entry.
abbrev pub Follows : State → State → Type 0
Follows s t = (s ≡ t) ⊎ ((s ≡ queued) × (t ≡ processing))

-- The entries lead from state `s` to state `t` by allowed moves, each entry naming where it came from.
abbrev pub Leads : State → List HistoryEntry → State → Type 0
Leads s [] t = Follows s t
Leads s (e ∷ es) t =
    ((m : State) × (e.from ≡ some m)
      × Follows s m
      × (is_transition_allowed m e.state ≡ true)
      × (m ≢ e.state))
    × Leads e.state es t

-- A history that starts with the entry of the creation and ends in the present state.
abbrev pub IsTrail : List HistoryEntry → State → Type 0
IsTrail [] t = ⊥
IsTrail (e ∷ es) t = (e.state ≡ queued) × Leads e.state es t

module _ (t : State) (e : HistoryEntry) (from : e.from ≡ some t)
    (fits : is_transition_allowed t e.state ≡ true) (ne : t ≢ e.state) where
  Leads-concat :
      (s : State) (es : List HistoryEntry) → Leads s es t → Leads s (es ++ e ∷ []) e.state
  Leads-concat s [] l = ((t, from, l, fits, ne), inl refl)
  Leads-concat s (x ∷ xs) l = (l.0, Leads-concat x.state xs l.1)

  IsTrail-concat : (es : List HistoryEntry) → IsTrail es t → IsTrail (es ++ e ∷ []) e.state
  IsTrail-concat [] l = absurd l
  IsTrail-concat (x ∷ xs) l = (l.0, Leads-concat x.state xs l.1)

-- The request that `apply_state` works on.
abbrev pub merge : Request → Store → Request
merge r store = record r { state = store.row.state; state_history = store.row.state_history }

refused-ne : (a b : State) → is_transition_allowed a b ≡ false → state_eq a b ≡ false
unfolding is_transition_allowed
refused-ne a b e = ground arith

differ : (a b : State) → state_eq a b ≡ false → a ≢ b
differ a b other e = ground arith

-- The three ways of `apply_state`.
pub apply_state-stay :
    (now : ℕ) (r : Request) (s : State) (detail : String) (store : Store)
    → store.row.state ≡ s
    → apply_state now r s detail store ≡ ok (merge r store, store)
unfolding apply_state persist_state
apply_state-stay now r s detail store e =
    let same : state_eq store.row.state s ≡ true = rw e (state_eq_refl s) in
    rw (same, apply_state, persist_state, append-nil)

pub apply_state-move :
    (now : ℕ) (r : Request) (s : State) (detail : String) (store : Store)
    → store.row.state ≢ s
    → is_transition_allowed store.row.state s ≡ true
    → apply_state now r s detail store
      ≡ ok (
        moved now (merge r store) s detail,
        record {
          row = moved now (merge r store) s detail;
          outbox = store.outbox ++ events_for s detail;
        },
      )
unfolding apply_state persist_state
apply_state-move now r s detail store ne fits =
    let other : state_eq store.row.state s ≡ false =
      elim (Bool-cases (state_eq store.row.state s)) [
        | inl same ↦ absurd (ne (state_eq_sound _ _ same))
        | inr other ↦ other
      ] in
    rw (other, fits, apply_state, persist_state)

pub apply_state-refused :
    (now : ℕ) (r : Request) (s : State) (detail : String) (store : Store)
    → is_transition_allowed store.row.state s ≡ false
    → apply_state now r s detail store ≡ err invalid_state_transition
unfolding apply_state persist_state
apply_state-refused now r s detail store e =
    let other : state_eq store.row.state s ≡ false = refused-ne store.row.state s e in
    rw (other, e, apply_state, persist_state)

apply_state-cases {ℓ} :
    (P : Result ErrorCode (Request × Store) → Type ℓ) (now : ℕ) (r : Request) (s : State)
    (detail : String) (store : Store)
    → (store.row.state ≡ s → P (ok (merge r store, store)))
    → (store.row.state ≢ s
        → is_transition_allowed store.row.state s ≡ true
        → P (
            ok (
              moved now (merge r store) s detail,
              record {
                row = moved now (merge r store) s detail;
                outbox = store.outbox ++ events_for s detail;
              },
            )))
    → P (err invalid_state_transition)
    → P (apply_state now r s detail store)
apply_state-cases P now r s detail store stay go refuse =
    elim (Bool-cases (is_transition_allowed store.row.state s)) [
      | inr e ↦ rw (apply_state-refused now r s detail store e) refuse
      | inl fits ↦ elim (Bool-cases (state_eq store.row.state s)) [
        | inl same ↦
            let e = state_eq_sound _ _ same in rw (apply_state-stay now r s detail store e) (stay e)
        | inr other ↦
            let ne : store.row.state ≢ s = differ store.row.state s other in
            rw (apply_state-move now r s detail store ne fits) (go ne fits)
      ]
    ]

-- What a call leaves in the database.
abbrev pub store_after : Store → Result ErrorCode (Request × Store) → Store
store_after store (ok (_, store')) = store'
store_after store (err _) = store

-- A call changes the row only along a move of the diagram: the history stays a trail of allowed moves
-- from `queued` to the present state, whatever request the caller holds in memory.
pub apply_state-IsTrail :
    (now : ℕ) (r : Request) (s : State) (detail : String) (store : Store)
    → IsTrail store.row.state_history store.row.state
    → let after = store_after store (apply_state now r s detail store) in
      IsTrail after.row.state_history after.row.state
apply_state-IsTrail now r s detail store trail =
    apply_state-cases
      (λ result.
        let after = store_after store result in IsTrail after.row.state_history after.row.state)
      now r s detail store (λ _. trail)
      (λ ne fits.
        unfold moved in
        IsTrail-concat store.row.state
          (record { state = s; timestamp = now; detail = detail; from = some store.row.state }) refl
          fits ne store.row.state_history trail)
      trail

-- The states of the events, in order, are the notifiable states of the history: each transition that
-- is to be notified has exactly one event.
abbrev pub AreInStep : Store → Type 0
AreInStep store =
    map (λ e. OutboxEvent.state e) store.outbox
    ≡ filter (includes notifiable_states) (map (λ h. HistoryEntry.state h) store.row.state_history)

filter-append {ℓ} :
    {A : Type ℓ} (p : A → Bool) (xs ys : List A) → filter p (xs ++ ys) ≡ filter p xs ++ filter p ys
filter-append p [] ys = refl
filter-append p (x ∷ xs) ys = ground (arith, filter-append p xs ys)

events_for-AreInStep :
    (s : State) (detail : String)
    → map (λ e. OutboxEvent.state e) (events_for s detail)
      ≡ filter (includes notifiable_states) (s ∷ [])
unfolding events_for
events_for-AreInStep s detail = ground arith

-- A store whose events are in step with its history stays so, whatever state is asked for and whatever
-- request the caller holds: exactly the notifiable moves add an event.
pub apply_state-AreInStep :
    (now : ℕ) (r : Request) (s : State) (detail : String) (store : Store)
    → AreInStep store
    → AreInStep (store_after store (apply_state now r s detail store))
apply_state-AreInStep now r s detail store sync =
    apply_state-cases (λ result. AreInStep (store_after store result)) now r s detail store
      (λ _. sync)
      (λ ne fits. unfold moved in simp (map-append, filter-append, sync, events_for-AreInStep)) sync
