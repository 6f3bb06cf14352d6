-- ===== src/Graphs/Turn/Chains.antt =====
-- graphs/conversation.py: properties of an action that a chain of actions inherits.
use editorial_team_v.Prelude.{ok, err, ◌≡◌, ◌≢◌, inl, inr, Result-cases, arith}
use editorial_team_v.Graphs.Turn.{GraphError, Effects, Turn, ◌>>=◌}

-- Never that error.
abbrev pub Avoids : GraphError → {A : Type 0} → Turn A → Type 0
Avoids e m = (fx : Effects) → (m fx).0 ≢ err e

-- The tables as they were.
abbrev pub Idle : {A : Type 0} → Turn A → Type 0
Idle m = (fx : Effects) → (m fx).1.tables ≡ fx.tables

-- The tables as they were, where there is an error.
abbrev pub Safe : {A : Type 0} → Turn A → Type 0
Safe m = (fx : Effects) (e : GraphError) → (m fx).0 ≡ err e → (m fx).1.tables ≡ fx.tables

-- Values of which `P` holds.
abbrev pub Yields : {A : Type 0} → (A → Type 0) → Turn A → Type 0
Yields {A = A} P m = (fx : Effects) (a : A) → (m fx).0 ≡ ok a → P a

module _ {A B : Type 0} where
  pub chain-Avoids :
      (e : GraphError) (m : Turn A) (f : A → Turn B)
      → Avoids e m
      → ((a : A) → Avoids e (f a))
      → Avoids e (m >>= f)
  chain-Avoids e m f hm hf fx h = elim (Result-cases (m fx).0) [
    | inl (a, p) ↦ hf a (m fx).1 (rw p at h)
    | inr (x, p) ↦ ground (arith, hm fx)
  ]

  pub chain-Yields :
      (P : A → Type 0) (Q : B → Type 0) (m : Turn A) (f : A → Turn B)
      → Yields P m
      → ((a : A) → P a → Yields Q (f a))
      → Yields Q (m >>= f)
  chain-Yields P Q m f hm hf fx b h = elim (Result-cases (m fx).0) [
    | inl (a, p) ↦ hf a (hm fx a p) (m fx).1 b (rw p at h)
    | inr (x, p) ↦ ground arith
  ]
