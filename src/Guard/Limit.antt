-- ===== src/Guard/Limit.antt =====
-- The rate limit of one credential.
use cmorflow_tax_api.Common.{
  if◌then◌else◌, ◌∙◌, ◌+◌, inr, ◌<◌, ◌++◌, true, refl, ltb, inl, ◌≡◌, ◌&&◌, filter, arith, [],
  Bool-cases, ◌≤◌, ◌∷◌, length, leb, All, List, Bool, ℕ,
}
use cmorflow_tax_api.Guard.{enforce_rate_limit, is_recent, window_ms}

-- The requests that pass, the newest first, when calls arrive at the given times.
unfoldable pub passed : ℕ → List ℕ → List ℕ → List ℕ → List ℕ
passed limit [] stamps before = before
passed limit (now ∷ later) stamps before =
    let (kept, passes) = enforce_rate_limit limit now stamps in
    passed limit later kept (if passes then now ∷ before else before)

-- The clock does not run backwards.
abbrev pub IsAscending : ℕ → List ℕ → Type 0
IsAscending now [] = Unit
IsAscending now (t ∷ ts) = (now ≤ t) × IsAscending t ts

abbrev pub is_within : ℕ → ℕ → Bool
is_within start t = leb start t && ltb t (start + window_ms)

-- Whoever passes finds fewer than `limit` others in the minute before.
abbrev IsLimited : ℕ → List ℕ → Type 0
IsLimited limit [] = Unit
IsLimited limit (a ∷ bs) =
    (length (filter (is_recent a) bs) < limit) × All (λ x. x ≤ a) bs × IsLimited limit bs

recent-again :
    (now t : ℕ) (xs : List ℕ)
    → now ≤ t
    → length (filter (is_recent t) (filter (is_recent now) xs)) ≡ length (filter (is_recent t) xs)
recent-again now t [] le = refl
recent-again now t (x ∷ xs) le = ground (arith, recent-again now t xs le)

recent-push :
    (t n : ℕ) (xs : List ℕ)
    → length (filter (is_recent t) (xs ++ (n ∷ []))) ≡ length (filter (is_recent t) (n ∷ xs))
recent-push t n [] = refl
recent-push t n (x ∷ xs) = ground (arith, recent-push t n xs)

recent-cons :
    (u t : ℕ) (stamps before : List ℕ)
    → length (filter (is_recent u) (filter (is_recent t) stamps))
      ≡ length (filter (is_recent u) before)
    → length (filter (is_recent u) (t ∷ filter (is_recent t) stamps))
      ≡ length (filter (is_recent u) (t ∷ before))
recent-cons u t stamps before h = ground arith

-- Those of the same minute are recent for the newest of them.
within-recent :
    (start a : ℕ) (xs : List ℕ)
    → All (λ x. x ≤ a) xs
    → is_within start a ≡ true
    → length (filter (is_within start) xs) ≤ length (filter (is_recent a) xs)
within-recent start a [] all_before h = omega arith
within-recent start a (x ∷ xs) all_before h =
    let before = all_before.0 in ground (arith, within-recent start a xs all_before.1 h)

IsLimited-within :
    (limit start : ℕ) (bs : List ℕ)
    → IsLimited limit bs
    → length (filter (is_within start) bs) ≤ limit
IsLimited-within limit start [] h = omega arith
IsLimited-within limit start (a ∷ bs) (few, before, rest) = elim (Bool-cases (is_within start a)) [
  | inl e ↦ rw e (omega (arith, within-recent start a bs before e))
  | inr e ↦ rw e (IsLimited-within limit start bs rest)
]

record Tracks (limit now : ℕ) (stamps before : List ℕ) : Type 0 where
  recent :
      (t : ℕ)
      → now ≤ t
      → length (filter (is_recent t) stamps) ≡ length (filter (is_recent t) before)
  few : IsLimited limit before
  past : All (λ x. x ≤ now) before

All-later : (now t : ℕ) (xs : List ℕ) → now ≤ t → All (λ x. x ≤ now) xs → All (λ x. x ≤ t) xs
All-later now t [] le h = tt
All-later now t (x ∷ xs) le h = (omega (arith, h.0), All-later now t xs le h.1)

enforce_rate_limit-Tracks :
    (limit now t : ℕ) (stamps before : List ℕ)
    → now ≤ t
    → Tracks limit now stamps before
    → Tracks limit t
        (enforce_rate_limit limit t stamps).0
        (if (enforce_rate_limit limit t stamps).1 then t ∷ before else before)
unfolding enforce_rate_limit
enforce_rate_limit-Tracks limit now t stamps before le h =
    elim (Bool-cases (leb limit (length (filter (is_recent t) stamps)))) [
      | inl e ↦ rw e (record {
        recent = λ u le'. recent-again t u stamps le' ∙ h.recent u (omega arith);
        few = h.few;
        past = All-later now t before le h.past;
      })
      | inr e ↦
          let same = h.recent t le in
          rw e (record {
            recent = λ u le'.
                recent-push u t (filter (is_recent t) stamps)
                ∙ recent-cons u t stamps before
                    (recent-again t u stamps le' ∙ h.recent u (omega arith));
            few = (ground arith, All-later now t before le h.past, h.few);
            past = (omega arith, All-later now t before le h.past);
          })
    ]

passed-IsLimited :
    (limit now : ℕ) (times stamps before : List ℕ)
    → IsAscending now times
    → Tracks limit now stamps before
    → IsLimited limit (passed limit times stamps before)
unfolding passed enforce_rate_limit
passed-IsLimited limit now [] stamps before up h = h.few
passed-IsLimited limit now (t ∷ times) stamps before (le, up) h =
    passed-IsLimited limit t times _ _ up (enforce_rate_limit-Tracks limit now t stamps before le h)

-- Whatever the times of the calls of one credential, as long as the clock does not run backwards, no
-- more requests than the limit pass within any minute.
pub passed-limited :
    (limit start now : ℕ) (times : List ℕ)
    → IsAscending now times
    → length (filter (is_within start) (passed limit times [] [])) ≤ limit
passed-limited limit start now times up = IsLimited-within limit start (passed limit times [] []) (
    passed-IsLimited limit now times [] [] up
      (record { recent = λ t le. refl; few = tt; past = tt }))
