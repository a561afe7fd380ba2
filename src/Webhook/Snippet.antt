-- ===== src/Webhook/Snippet.antt =====
-- The snippet of a response.
use cmorflow_tax_api.Common.{
  ◌∙◌, ◌+◌, leb, ◌||◌, inl, inr, ltb, Bool-cases, sym, zero, ap, suc, refl, ◌-◌, ◌++◌, min, arith,
  [], ◌≤◌, ◌≡◌, ◌∷◌, take, length, ℕ, List,
}
use mathlib.Core.List.{append-nil}
use cmorflow_tax_api.Webhook.{read_chunks, read_response_snippet, response_snippet_max}

abbrev pub concat : List (List ℕ) → List ℕ
concat [] = []
concat (chunk ∷ chunks) = chunk ++ concat chunks

take-append : (n : ℕ) (xs ys : List ℕ) → take n (xs ++ ys) ≡ take n xs ++ take (n - length xs) ys
take-append zero xs ys = nothing (take (zero - length xs) ys) (omega arith)
  where
    nothing :
        (zs : List ℕ)
        → zero - length xs ≡ zero
        → take zero (xs ++ ys) ≡ take zero xs ++ take (zero - length xs) ys
    nothing zs e = rw e refl
take-append (suc n) [] ys = let e : suc n ≡ suc n - 0 = omega arith in ap (λ k. take k ys) e
take-append (suc n) (x ∷ xs) ys =
    let e : n - length xs ≡ suc n - suc (length xs) = omega arith in
    ap (λ l. x ∷ l) (take-append n xs ys) ∙ ap (λ k. x ∷ (take n xs ++ take k ys)) e

length-take : (n : ℕ) (xs : List ℕ) → length (take n xs) ≡ min n (length xs)
length-take zero xs = omega arith
length-take (suc n) [] = omega arith
length-take (suc n) (x ∷ xs) = omega (arith, length-take n xs)

take-none : (n : ℕ) (xs : List ℕ) → n ≡ 0 → take n xs ≡ []
take-none n xs e = rw e refl

take-nil : (n : ℕ) → take {A = ℕ} n [] ≡ []
take-nil zero = refl
take-nil (suc n) = refl

read_chunks-take :
    (limit size : ℕ) (chunks : List (List ℕ))
    → size ≤ limit
    → read_chunks limit size chunks ≡ take (limit - size) (concat chunks)
unfolding read_chunks
read_chunks-take limit size [] h = sym (take-nil (limit - size))
read_chunks-take limit size (chunk ∷ chunks) h =
    let k : ℕ = limit - size in
    let taken : ℕ = length (take k chunk) in
    let measured : taken ≡ min k (length chunk) = length-take k chunk in
    elim (Bool-cases (ltb size limit)) [
      | inr e ↦ rw e (sym (take-none k (chunk ++ concat chunks) (ground arith)))
      | inl e ↦ rw e (elim (Bool-cases (ltb taken (length chunk) || leb limit (size + taken))) [
        | inl f ↦
            rw
              (
                f,
                take-append k chunk (concat chunks),
                take-none (k - length chunk) (concat chunks) (ground arith),
              )
              (sym (append-nil (take k chunk)))
        | inr f ↦
            let more : size + taken ≤ limit = ground arith in
            let left : limit - (size + taken) ≡ k - length chunk = ground arith in
            rw
              (
                f,
                take-append k chunk (concat chunks),
                read_chunks-take limit (size + taken) chunks more,
                left,
              )
              refl
      ])
    ]

-- The snippet is the first 300 bytes of the response's body, however the body is cut into chunks.
pub read_response_snippet-take :
    (chunks : List (List ℕ)) → read_response_snippet chunks ≡ take 300 (concat chunks)
read_response_snippet-take chunks = read_chunks-take response_snippet_max 0 chunks (omega arith)
