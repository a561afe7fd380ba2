-- ===== src/Intake/Idempotence.antt =====
-- One request for one key.
use cmorflow_tax_api.Common.{
  ◌∙◌, ◌≢◌, inr, if◌then◌else◌, subst, inl, Option, Bool-cases, false, err, [], ◌∷◌, refl, ok, any,
  str_eq_iff, some, none, arith, ℕ, true, str_eq, find, ◌≡◌, String, List, Bool, truthy, ok-inj,
}
use cmorflow_tax_api.Request.{Kind}
use cmorflow_tax_api.Intake.{
  Entry, EnqueueInput, idempotency_conflict, external_reference_conflict, kind_eq, or_empty,
  is_same_key, new_entry, violates, by_reference, Answer, replay, after_violation, reference_race,
  insert_entry, other_key, after_read, enqueue,
}

-- What the first reads of a call may see: the table as it is, or a state of it from before in which
-- neither the key nor the reference was there.
pub data IsSnapshot (input : EnqueueInput) (rows : List Entry) : List Entry → Type 0 where
  present : IsSnapshot input rows rows
  earlier :
      (seen : List Entry)
      → find (is_same_key input) seen ≡ none
      → by_reference input.tenant_id (truthy input.external_reference) seen ≡ none
      → IsSnapshot input rows seen

text_refl : (s : String) → str_eq s s ≡ true
text_refl s = (str_eq_iff s s).1 refl

kind_refl : (k : Kind) → kind_eq k k ≡ true
kind_refl k = ground arith

new_entry-is_same_key :
    (hash : String) (now : ℕ) (id : String) (input : EnqueueInput)
    → is_same_key input (new_entry hash now id input) ≡ true
unfolding is_same_key new_entry
new_entry-is_same_key hash now id input =
    let a = text_refl input.tenant_id in
    let b = kind_refl input.kind in
    let c = text_refl (or_empty input.resource_key) in
    let d = text_refl input.idempotency_key in ground (arith, a, b, c, d)

find-any :
    (p : Entry → Bool) (rows : List Entry) (e : Entry) → find p rows ≡ some e → any p rows ≡ true
find-any p [] e h = cc h
find-any p (x ∷ xs) e h = ground (arith, find-any p xs e)

-- The key's row after a call that answers: the row of the answer, with the body's hash.
pub record IsStored (hash : String) (input : EnqueueInput) (e : Entry) (rows : List Entry)
    : Type 0 where
  pub found : find (is_same_key input) rows ≡ some e
  pub same_body : str_eq e.request_hash hash ≡ true

replay-IsStored :
    (hash : String) (input : EnqueueInput) (rows : List Entry) (existing : Entry)
    (x : (Entry × Bool) × List Entry)
    → find (is_same_key input) rows ≡ some existing
    → replay hash rows existing ≡ ok x
    → IsStored hash input x.0.0 x.1
replay-IsStored hash input rows existing x found h =
    elim (Bool-cases (str_eq existing.request_hash hash)) [
      | inl e ↦
          subst (λ y. IsStored hash input y.0.0 y.1)
            (ok-inj (
              subst
                (λ c. (if c then ok ((existing, true), rows) else err idempotency_conflict) ≡ ok x)
                e h))
            (record { found = found; same_body = e })
      | inr e ↦ absurd (
          conflict-ne x (
            subst
              (λ c. (if c then ok ((existing, true), rows) else err idempotency_conflict) ≡ ok x) e
              h))
    ]
  where
    conflict-ne :
        (x : (Entry × Bool) × List Entry) → Path Answer (err idempotency_conflict) (ok x) → ⊥
    conflict-ne x e = cc e

reference_race-ne : (o : Option Entry) (x : (Entry × Bool) × List Entry) → reference_race o ≢ ok x
reference_race-ne none x e = cc e
reference_race-ne (some other) x e = cc e

insert_entry-IsStored :
    (hash : String) (now : ℕ) (id : String) (input : EnqueueInput) (rows : List Entry)
    (x : (Entry × Bool) × List Entry)
    → insert_entry hash now id input rows ≡ ok x
    → IsStored hash input x.0.0 x.1
unfolding insert_entry new_entry
insert_entry-IsStored hash now id input rows x h = elim (Bool-cases (violates input rows)) [
  | inl e ↦ raced (find (is_same_key input) rows) refl (
      subst
        (λ c.
          (if c then after_violation hash input rows (find (is_same_key input) rows) else inserted)
          ≡ ok x)
        e h)
  | inr e ↦
      subst (λ y. IsStored hash input y.0.0 y.1)
        (ok-inj (
          subst
            (λ c.
              (if c
                then after_violation hash input rows (find (is_same_key input) rows)
                else inserted)
              ≡ ok x)
            e h))
        (record { found = own; same_body = text_refl hash })
]
  where
    entry : Entry
    entry = new_entry hash now id input

    inserted : Answer
    inserted = ok ((entry, false), entry ∷ rows)

    own : find (is_same_key input) (entry ∷ rows) ≡ some entry
    own = rw (new_entry-is_same_key hash now id input) refl

    raced :
        (o : Option Entry)
        → find (is_same_key input) rows ≡ o
        → after_violation hash input rows o ≡ ok x
        → IsStored hash input x.0.0 x.1
    raced (some r) found e = replay-IsStored hash input rows r x found e
    raced none found e = absurd (
        reference_race-ne (by_reference input.tenant_id (truthy input.external_reference) rows) x e)

pub enqueue-IsStored :
    (sha256 : String → String) (now : ℕ) (id : String) (input : EnqueueInput)
    (seen rows : List Entry) (x : (Entry × Bool) × List Entry)
    → IsSnapshot input rows seen
    → enqueue sha256 now id input seen rows ≡ ok x
    → IsStored (sha256 input.raw_body) input x.0.0 x.1
unfolding enqueue
enqueue-IsStored sha256 now id input _ rows x present h =
    from (find (is_same_key input) rows) refl h
  where
    unseen :
        (o : Option Entry)
        → (if other_key input o
            then err external_reference_conflict
            else insert_entry (sha256 input.raw_body) now id input rows)
          ≡ ok x
        → IsStored (sha256 input.raw_body) input x.0.0 x.1
    unseen o e = elim (Bool-cases (other_key input o)) [
      | inl c ↦ absurd (
          reference_race-ne (some (new_entry "" 0 "" input)) x (
            subst
              (λ b.
                (if b
                  then err external_reference_conflict
                  else insert_entry (sha256 input.raw_body) now id input rows)
                ≡ ok x)
              c e))
      | inr c ↦ insert_entry-IsStored (sha256 input.raw_body) now id input rows x (
          subst
            (λ b.
              (if b
                then err external_reference_conflict
                else insert_entry (sha256 input.raw_body) now id input rows)
              ≡ ok x)
            c e)
    ]

    from :
        (o : Option Entry)
        → find (is_same_key input) rows ≡ o
        → after_read (sha256 input.raw_body) now id input rows rows o ≡ ok x
        → IsStored (sha256 input.raw_body) input x.0.0 x.1
    from (some existing) found e =
        replay-IsStored (sha256 input.raw_body) input rows existing x found e
    from none found e =
        unseen (by_reference input.tenant_id (truthy input.external_reference) rows) e
enqueue-IsStored sha256 now id input _ rows x (earlier seen no_key no_reference) h =
    insert_entry-IsStored (sha256 input.raw_body) now id input rows x (
      subst
        (λ o.
          (if other_key input o
            then err external_reference_conflict
            else insert_entry (sha256 input.raw_body) now id input rows)
          ≡ ok x)
        no_reference
        (subst (λ o. after_read (sha256 input.raw_body) now id input seen rows o ≡ ok x) no_key h))

-- For a stored key, a call answers from the stored row, however old its first reads are.
stored-answer :
    (sha256 : String → String) (now : ℕ) (id : String) (input : EnqueueInput)
    (seen rows : List Entry) (e : Entry)
    → IsSnapshot input rows seen
    → find (is_same_key input) rows ≡ some e
    → enqueue sha256 now id input seen rows ≡ replay (sha256 input.raw_body) rows e
unfolding enqueue insert_entry violates
stored-answer sha256 now id input _ rows e present found = rw found refl
stored-answer sha256 now id input _ rows e (earlier seen no_key no_reference) found =
    let taken = find-any (is_same_key input) rows e found in
    rw (no_key, no_reference, taken, found) refl

-- Once a call has answered with a request, repeating it answers with the same request as a replay and
-- leaves the table as it is, at whatever time and also when the two calls race, so that the reads of
-- either see the table from before the key and the reference were there.
pub enqueue_replays :
    (sha256 : String → String) (now later : ℕ) (id other : String) (input : EnqueueInput)
    (seen again rows : List Entry) (x : (Entry × Bool) × List Entry)
    → IsSnapshot input rows seen
    → enqueue sha256 now id input seen rows ≡ ok x
    → IsSnapshot input x.1 again
    → enqueue sha256 later other input again x.1 ≡ ok ((x.0.0, true), x.1)
enqueue_replays sha256 now later id other input seen again rows x before h after =
    let stored = enqueue-IsStored sha256 now id input seen rows x before h in
    stored-answer sha256 later other input again x.1 x.0.0 after stored.found
    ∙ rw stored.same_body refl

-- Once a call has answered, a call with the same key and a body of another hash is refused as a
-- conflict, at whatever time and also when the two race.
pub enqueue_conflicts :
    (sha256 : String → String) (now later : ℕ) (id other body : String) (input : EnqueueInput)
    (seen again rows : List Entry) (x : (Entry × Bool) × List Entry)
    → IsSnapshot input rows seen
    → enqueue sha256 now id input seen rows ≡ ok x
    → IsSnapshot (record input { raw_body = body }) x.1 again
    → str_eq (sha256 input.raw_body) (sha256 body) ≡ false
    → enqueue sha256 later other (record input { raw_body = body }) again x.1
      ≡ err idempotency_conflict
unfolding is_same_key
enqueue_conflicts sha256 now later id other body input seen again rows x before h after differs =
    let stored = enqueue-IsStored sha256 now id input seen rows x before h in
    let same : x.0.0.request_hash ≡ sha256 input.raw_body =
      (str_eq_iff x.0.0.request_hash (sha256 input.raw_body)).0 stored.same_body in
    stored-answer sha256 later other (record input { raw_body = body }) again x.1 x.0.0 after
      stored.found
    ∙ rw (same, differs) refl
