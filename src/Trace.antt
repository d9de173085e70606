-- ===== src/Trace.antt =====
-- Sequences of accepted transitions of a reducer, and induction over them.
use pi_agentworks.Prelude.{
  ◌≡◌, ◌⊎◌, inl, inr, List, [], ◌∷◌, ◌++◌, In, In-append_left, In-append_right, subst, append-nil,
  append_assoc,
}
use pi_agentworks.Errors.{Result, ok, ◌>>=◌, >>=-eq-ok, ok-injective}

-- The state that a sequence of transitions leads to, if each of them is accepted. A refused
-- transition throws and changes nothing, so these are all the states that can be reached.
unfoldable pub replay {ℓ κ} : {S : Type ℓ} {T : Type κ} → (S → T → Result S) → S → List T → Result S
replay step current [] = ok current
replay step current (transition ∷ later) = do next ← step current transition; replay step next later

module _ {ℓ κ} {S : Type ℓ} {T : Type κ} (step : S → T → Result S) where
  -- What each step keeps of the state and of the transitions made so far holds at the end.
  pub replay_history {μ} :
      (P : List T → S → Type μ)
      → ((past : List T) (s : S) (tr : T) (t : S)
          → P past s
          → step s tr ≡ ok t
          → P (past ++ tr ∷ []) t)
      → (past : List T) (s : S) (trs : List T) {t : S} → P past s
      → replay step s trs ≡ ok t
      → P (past ++ trs) t
  unfolding replay
  replay_history P keeps past s [] p h = rw (append-nil past) (subst (P past) (ok-injective h) p)
  replay_history P keeps past s (tr ∷ trs) p h =
      let (next, stepped, rest) = >>=-eq-ok (step s tr) _ h in
      rw (← append_assoc past (tr ∷ []) trs)
        (replay_history P keeps (past ++ tr ∷ []) next trs (keeps past s tr next p stepped) rest)

  -- An invariant of the state.
  pub replay_inv {μ} :
      (P : S → Type μ)
      → ((s : S) (tr : T) (t : S) → P s → step s tr ≡ ok t → P t)
      → (s : S) (trs : List T) {t : S} → P s
      → replay step s trs ≡ ok t
      → P t
  replay_inv P keeps s trs = replay_history (λ past u. P u) (λ past. keeps) [] s trs

  -- Either a transition of a given kind was made, or the state still satisfies `P`.
  pub replay_witness {μ ν} :
      (P : S → Type μ) (Q : T → Type ν)
      → ((s : S) (tr : T) (t : S) → P s → step s tr ≡ ok t → Q tr ⊎ P t)
      → (s : S) (trs : List T) {t : S} → P s
      → replay step s trs ≡ ok t
      → ((tr : T) × In tr trs × Q tr) ⊎ P t
  replay_witness P Q keeps s trs p h =
      replay_history (λ past u. ((tr : T) × In tr past × Q tr) ⊎ P u)
        (λ past u tr v known stepped. elim known [
          | inl (old, i, q) ↦ inl (old, In-append_left (tr ∷ []) i, q)
          | inr w ↦ elim (keeps u tr v w stepped) [
            | inl q ↦ inl (tr, In-append_right past In.here, q)
            | inr w' ↦ inr w'
          ]
        ])
        [] s trs (inr p) h
