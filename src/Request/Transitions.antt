-- ===== src/Request/Transitions.antt =====
-- The transition map of the requests as a relation.
use cmorflow_tax_api.Common.{inr, inl, ◌⊎◌, ◌↔◌, refl, arith, true, ◌≡◌}
use cmorflow_tax_api.Request.{
  State, state_eq, is_transition_allowed, queued, processing, submitted, accepted, observed,
  rejected, failed, cancelled,
}

-- One move of the public state machine, as the documentation draws it.
infix 40 ◌⟶◌
pub data ◌⟶◌ : State → State → Type 0 where
  claim : queued ⟶ processing
  withdraw : queued ⟶ cancelled
  send : processing ⟶ submitted
  break : processing ⟶ failed
  abandon : processing ⟶ cancelled
  accept : submitted ⟶ accepted
  observe : submitted ⟶ observed
  reject : submitted ⟶ rejected
  lose : submitted ⟶ failed
  mend : observed ⟶ accepted
  refuse : observed ⟶ rejected
  retry : failed ⟶ processing

ruleset moves =
    (claim, withdraw, send, break, abandon, accept, observe, reject, lose, mend, refuse, retry)

pub state_eq_sound : (a b : State) → state_eq a b ≡ true → a ≡ b
state_eq_sound a b h = ground arith

pub state_eq_refl : (a : State) → state_eq a a ≡ true
state_eq_refl a = ground arith

move-of-allowed : (a b : State) → is_transition_allowed a b ≡ true → (a ≡ b) ⊎ (a ⟶ b)
unfolding is_transition_allowed
move-of-allowed a b h = grind (arith, moves)

allowed-of-move : {a b : State} → a ⟶ b → is_transition_allowed a b ≡ true
unfolding is_transition_allowed
allowed-of-move claim = refl
allowed-of-move _ = refl

allowed_self : (a : State) → is_transition_allowed a a ≡ true
unfolding is_transition_allowed
allowed_self a = ground arith

-- The test accepts exactly the moves of the diagram and staying in place.
pub is_transition_allowed_iff :
    (a b : State) → (is_transition_allowed a b ≡ true) ↔ ((a ≡ b) ⊎ (a ⟶ b))
is_transition_allowed_iff a b =
    (move-of-allowed a b, λ c. elim c [ inl e ↦ rw e (allowed_self b) | inr m ↦ allowed-of-move m ])
