-- ===== src/Telegram/Chunks.antt =====
-- interfaces/telegram.py: the cut of a reply loses nothing, keeps to the limit and ends.
use editorial_team_v.Prelude.{
  ltb, leb, ◌==◌, leb→le, Bool-cases, Option-cases, length, take, drop, length-append,
  take-append-drop, length-take, length-drop, All, All-append, ok, err, Result-cases, Text,
  is_space, ℕ, zero, suc, ◌+◌, ◌≤◌, ◌<◌, ◌≡◌, refl, sym, ap, ◌∙◌, subst, ◌≢◌, inl, inr, true, false,
  some, List, [], ◌∷◌, ◌++◌, append_assoc, append-nil, arith, starts_with, strip-blank, all_append,
}
use editorial_team_v.Telegram.{
  out_of_fuel, rfind, preferred_split, is_blank, split_at, extend_last, finish_chunks,
  split_remaining, chunk_text,
}

unfoldable pub concat : List Text → Text
concat [] = []
concat (c ∷ cs) = c ++ concat cs

-- A message that Telegram takes.
abbrev pub Fits : ℕ → Text → Type 0
Fits limit c = (length c ≤ limit) × (is_blank c ≡ false)

pub concat-append : (cs ds : List Text) → concat (cs ++ ds) ≡ concat cs ++ concat ds
unfolding concat
concat-append [] ds = refl
concat-append (c ∷ cs) ds =
    ap (λ t. c ++ t) (concat-append cs ds) ∙ sym (append_assoc c (concat cs) (concat ds))

concat-snoc : (cs : List Text) (c t : Text) → concat (cs ++ (c ∷ [])) ++ t ≡ concat cs ++ (c ++ t)
unfolding concat
concat-snoc [] c t = append_assoc c [] t
concat-snoc (d ∷ cs) c t =
    append_assoc d (concat (cs ++ (c ∷ []))) t
    ∙ ap (λ u. d ++ u) (concat-snoc cs c t)
    ∙ sym (append_assoc d (concat cs) (c ++ t))

-- An occurrence ends inside the text.
starts_with-length : (sub s : Text) → starts_with sub s ≡ true → length sub ≤ length s
unfolding starts_with
starts_with-length [] s h = ground arith
starts_with-length (c ∷ sub) [] h = ground arith
starts_with-length (c ∷ sub) (d ∷ s) h = ground (arith, starts_with-length sub s)

rfind-length : (sub s : Text) (i : ℕ) → rfind sub s ≡ some i → i + length sub ≤ length s
unfolding rfind
rfind-length sub [] i h = ground arith
rfind-length sub (c ∷ s) i h = elim (Option-cases (rfind sub s)) [
  | inl e ↦ ground (arith, starts_with-length sub (c ∷ s))
  | inr (j, e) ↦ ground (arith, rfind-length sub s j)
]

preferred_split-bounds :
    (t : Text) (limit : ℕ)
    → limit ≢ 0
    → (1 ≤ preferred_split t limit) × (preferred_split t limit ≤ limit)
unfolding preferred_split
preferred_split-bounds t limit h = elim (Option-cases (rfind (10 ∷ 10 ∷ []) (take limit t))) [
  | inr (i, e) ↦ ground (arith, rfind-length (10 ∷ 10 ∷ []) (take limit t) i e, length-take limit t)
  | inl e ↦ elim (Option-cases (rfind (10 ∷ []) (take limit t))) [
    | inr (i, f) ↦ ground (arith, rfind-length (10 ∷ []) (take limit t) i f, length-take limit t)
    | inl f ↦ ground arith
  ]
]

split_at-bounds :
    (t : Text) (limit : ℕ) → limit ≢ 0 → (1 ≤ split_at t limit) × (split_at t limit ≤ limit)
unfolding split_at
split_at-bounds t limit h = ground (arith, preferred_split-bounds t limit h)

extend_last-ends :
    (limit : ℕ) (chunks : List Text) (t : Text) → extend_last limit chunks t ≢ err out_of_fuel
unfolding extend_last
extend_last-ends limit [] t = ground arith
extend_last-ends limit (c ∷ []) t = ground arith
extend_last-ends limit (c ∷ d ∷ cs) t = ground (arith, extend_last-ends limit (d ∷ cs) t)

split_remaining-ends :
    (fuel limit : ℕ) (chunks : List Text) (t : Text)
    → limit ≢ 0
    → length t < fuel
    → split_remaining fuel limit chunks t ≢ err out_of_fuel
unfolding split_remaining finish_chunks
split_remaining-ends zero limit chunks t h k = ground arith
split_remaining-ends (suc fuel) limit chunks t h k =
    let cut = split_at t limit in
    ground (
      arith,
      extend_last-ends limit chunks t,
      split_at-bounds t limit h,
      length-drop cut t,
      split_remaining-ends fuel limit (chunks ++ (take cut t ∷ [])) (drop cut t) h,
    )

-- The loop of `chunk_text` ends within the length of the text and one more passes, for every text
-- and limit.
pub chunk_text-ends : (t : Text) (limit : ℕ) → chunk_text t limit ≢ err out_of_fuel
unfolding chunk_text
chunk_text-ends t limit = elim (Bool-cases (limit == 0)) [
  | inl e ↦ ground arith
  | inr e ↦ ground (arith, split_remaining-ends (suc (length t)) limit [] t (ground arith))
]

-- White space after a text that is not blank leaves it so.
is_blank-append : (s t : Text) → is_blank s ≡ false → is_blank (s ++ t) ≡ false
is_blank-append s t h = ground (arith, strip-blank s, strip-blank (s ++ t), all_append is_space s t)

extend_last-Fits :
    (limit : ℕ) (chunks cs : List Text) (t : Text)
    → All (Fits limit) chunks
    → extend_last limit chunks t ≡ ok cs
    → (concat cs ≡ concat chunks ++ t) × All (Fits limit) cs
unfolding extend_last concat
extend_last-Fits limit [] cs t h e = ground arith
extend_last-Fits limit (c ∷ []) cs t h e = elim (Bool-cases (ltb limit (length c + length t))) [
  | inl over ↦ ground arith
  | inr under ↦
      let same : (c ++ t) ∷ [] ≡ cs = ground arith in
      let size : length (c ++ t) ≤ limit = ground (arith, length-append c t) in
      subst (λ x. (concat x ≡ (c ++ []) ++ t) × All (Fits limit) x) same
        (
          append-nil (c ++ t) ∙ ap (λ x. x ++ t) (sym (append-nil c)),
          ((size, is_blank-append c t h.0.1), tt),
        )
]
extend_last-Fits limit (c ∷ d ∷ ds) cs t h e = elim (Result-cases (extend_last limit (d ∷ ds) t)) [
  | inr (x, p) ↦ ground arith
  | inl (es, p) ↦
      let (joined, fit) = extend_last-Fits limit (d ∷ ds) es t h.1 p in
      let same : c ∷ es ≡ cs = ground arith in
      subst (λ x. (concat x ≡ (c ++ concat (d ∷ ds)) ++ t) × All (Fits limit) x) same
        (ap (λ x. c ++ x) joined ∙ sym (append_assoc c (concat (d ∷ ds)) t), (h.0, fit))
]

finish_chunks-Fits :
    (limit : ℕ) (chunks cs : List Text) (t : Text)
    → All (Fits limit) chunks
    → length t ≤ limit
    → finish_chunks limit chunks t ≡ ok cs
    → (concat cs ≡ concat chunks ++ t) × All (Fits limit) cs
unfolding finish_chunks
finish_chunks-Fits limit chunks cs t h k e = elim (Bool-cases (is_blank t)) [
  | inl blank ↦ extend_last-Fits limit chunks cs t h (ground arith)
  | inr ink ↦
      let same : chunks ++ (t ∷ []) ≡ cs = ground arith in
      subst (λ x. (concat x ≡ concat chunks ++ t) × All (Fits limit) x) same
        (
          sym (append-nil (concat (chunks ++ (t ∷ []))))
              ∙ concat-snoc chunks t []
              ∙ ap (λ x. concat chunks ++ x) (append-nil t),
          All-append (Fits limit) chunks (t ∷ []) h ((k, ink), tt),
        )
]

split_remaining-Fits :
    (fuel limit : ℕ) (chunks cs : List Text) (t : Text)
    → limit ≢ 0
    → All (Fits limit) chunks
    → split_remaining fuel limit chunks t ≡ ok cs
    → (concat cs ≡ concat chunks ++ t) × All (Fits limit) cs
unfolding split_remaining
split_remaining-Fits zero limit chunks cs t z h e = ground arith
split_remaining-Fits (suc fuel) limit chunks cs t z h e = elim (Bool-cases (leb (length t) limit)) [
  | inl short ↦
      finish_chunks-Fits limit chunks cs t h (leb→le (length t) limit short) (ground arith)
  | inr long ↦ elim (Bool-cases (is_blank (take (split_at t limit) t))) [
    | inl blank ↦ ground arith
    | inr ink ↦
        let cut = split_at t limit in
        let chunk = take cut t in
        let size : length chunk ≤ limit =
          ground (arith, length-take cut t, split_at-bounds t limit z) in
        let (joined, fit) =
          split_remaining-Fits fuel limit (chunks ++ (chunk ∷ [])) cs (drop cut t) z
            (All-append (Fits limit) chunks (chunk ∷ []) h ((size, ink), tt)) (ground arith) in
        (
          joined
              ∙ concat-snoc chunks chunk (drop cut t)
              ∙ ap (λ x. concat chunks ++ x) (take-append-drop cut t),
          fit,
        )
  ]
]

-- The chunks of a text, put together, are the text, and each of them is no longer than the limit
-- and is not blank.
pub chunk_text-Fits :
    (t : Text) (limit : ℕ) (cs : List Text)
    → chunk_text t limit ≡ ok cs
    → (concat cs ≡ t) × All (Fits limit) cs
unfolding chunk_text concat
chunk_text-Fits t limit cs e = elim (Bool-cases (limit == 0)) [
  | inl z ↦ ground arith
  | inr z ↦ split_remaining-Fits (suc (length t)) limit [] cs t (ground arith) tt (ground arith)
]
