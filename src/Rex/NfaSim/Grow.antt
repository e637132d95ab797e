-- ===== src/Rex/NfaSim/Grow.antt =====
-- What a run of `rex_nfasimulator_addstate` may change: it marks states, stacks each that it marks,
-- and leaves the rest alone.
use rpatk.Base.{ℕ, ◌≤◌, ◌≡◌, ◌⊎◌, ◌↔◌, inl, inr, refl, ◌∙◌, true, false, Bool-cases, length, arith}
use rpatk.Rex.Subset.{In}
use rpatk.Rex.State.{Db}
use rpatk.Rex.DfaConv.Reach.{Epsilon}
use rpatk.Rex.DfaConv.Scan.{unmarked}
use rpatk.Rex.NfaSim.{NfaSim}

-- the fields that only `start` and `next` change
pub record SameRest (s t : NfaSim) : Type 0 where
  pub count : t.count ≡ s.count
  pub inputsize : t.inputsize ≡ s.inputsize
  pub oldstates : t.oldstates ≡ s.oldstates
  pub accepts : t.accepts ≡ s.accepts

-- From `s` to `t` states of `P` were marked, with all that empty transitions reach from them.
pub record Grows (db : Db) (P : ℕ → Type 0) (s t : NfaSim) : Type 0 where
  pub rest : SameRest s t
  pub kept : (v : ℕ) → s.onmap v ≡ true → t.onmap v ≡ true
  pub sound : (v : ℕ) → t.onmap v ≡ true → (s.onmap v ≡ true) ⊎ P v
  pub closed : (u v : ℕ) → t.onmap u ≡ true → s.onmap u ≡ false → Epsilon db u v → t.onmap v ≡ true
  pub stack :
      (v : ℕ) → In v t.newstates ↔ (In v s.newstates ⊎ ((t.onmap v ≡ true) × (s.onmap v ≡ false)))
  pub fewer : unmarked (length db) t.onmap ≤ unmarked (length db) s.onmap

pub Grows-refl : (db : Db) (P : ℕ → Type 0) (s : NfaSim) → Grows db P s s
Grows-refl db P s = record {
  rest = record { count = refl; inputsize = refl; oldstates = refl; accepts = refl };
  kept = λ v k. k;
  sound = λ v k. inl k;
  closed = λ u v m n e. cc;
  stack = λ v. (inl, λ k. elim k [ inl a ↦ a | inr (m, n) ↦ cc ]);
  fewer = omega arith;
}

pub Grows-trans :
    {db : Db} {P : ℕ → Type 0} (r s t : NfaSim) → Grows db P r s → Grows db P s t → Grows db P r t
Grows-trans r s t g h = record {
  rest = record {
    count = h.rest.count ∙ g.rest.count;
    inputsize = h.rest.inputsize ∙ g.rest.inputsize;
    oldstates = h.rest.oldstates ∙ g.rest.oldstates;
    accepts = h.rest.accepts ∙ g.rest.accepts;
  };
  kept = λ v k. h.kept v (g.kept v k);
  sound = λ v k. elim (h.sound v k) [ inl m ↦ g.sound v m | inr p ↦ inr p ];
  closed = λ u v m n e. elim (Bool-cases (s.onmap u)) [
    | inl old ↦ h.kept v (g.closed u v old n e)
    | inr new ↦ h.closed u v m new e
  ];
  stack = λ v. ground (arith, g.stack v, h.stack v, g.kept v, h.kept v);
  fewer = omega (arith, g.fewer, h.fewer);
}

pub Grows-weaken :
    {db : Db} {P Q : ℕ → Type 0} (s t : NfaSim)
    → ((v : ℕ) → P v → Q v)
    → Grows db P s t
    → Grows db Q s t
Grows-weaken s t w g = record {
  rest = g.rest;
  kept = g.kept;
  sound = λ v k. elim (g.sound v k) [ inl m ↦ inl m | inr p ↦ inr (w v p) ];
  closed = g.closed;
  stack = g.stack;
  fewer = g.fewer;
}
