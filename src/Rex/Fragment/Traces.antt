-- ===== src/Rex/Fragment/Traces.antt =====
-- The words that an automaton reads from a state to another, and how they change when the dangling
-- transitions of a region of the database are aimed at a state.
use rpatk.Base.{
  ℕ, zero, suc, ◌+◌, ◌<◌, ◌≤◌, ◌≡◌, ◌⊎◌, ◌↔◌, refl, sym, ap, ◌∙◌, Bool, true, false, Bool-cases,
  inl, inr, Option, none, some, List, [], ◌∷◌, ◌++◌, map, length, ◌==◌, ne→==, arith, if◌then◌else◌,
}
use mathlib.Core.Path.{subst}
use rpatk.Rex.Transition.{Transition, trans_at}
use rpatk.Rex.Transition.Moves.{Covers}
use rpatk.Rex.State.{Db, missing, state_at}
use rpatk.Rex.Fragment.{Fragment, nowhere, aim}
use rpatk.Rex.Fragment.Places.{part_at, part, redirect, trans_at-map, length-map}

abbrev is_epsilon : Option ℕ → Bool
is_epsilon none = true
is_epsilon (some c) = false

abbrev Fits : Option ℕ → Transition → Type 0
Fits none t = Unit
Fits (some c) t = Covers t c

abbrev pub letter : Option ℕ → List ℕ → List ℕ
letter none w = w
letter (some c) w = c ∷ w

-- one of the transitions of `u` leads to `d`, on a character or on nothing
abbrev pub Edge : Db → ℕ → Option ℕ → ℕ → Type 0
Edge db u o d =
    (i : ℕ) × (i < length (part_at db u (is_epsilon o)))
    × Fits o (trans_at (part_at db u (is_epsilon o)) i)
    × (d ≡ (trans_at (part_at db u (is_epsilon o)) i).dstuid)

-- `n` transitions lead from `u` to `v` and read `w`
unfoldable pub Trace : Db → ℕ → ℕ → List ℕ → ℕ → Type 0
Trace db zero u w v = (u ≡ v) × (w ≡ [])
Trace db (suc n) u w v =
    (o : Option ℕ) × (x : List ℕ) × (d : ℕ) × (w ≡ letter o x) × Edge db u o d × Trace db n d x v

-- the words of a fragment: those that lead from its start to one of its dangling ends
unfoldable pub Reads : Db → Fragment → List ℕ → Type 0
Reads db f w = (n : ℕ) × Trace db n f.sstate w nowhere

abbrev pub Within : ℕ → ℕ → ℕ → Type 0
Within lo hi u = (lo ≤ u) × (u < hi)

-- The transitions of the region stay in it or lead nowhere.
abbrev pub Stays : Db → ℕ → ℕ → Type 0
Stays db lo hi =
    (u : ℕ) (e : Bool) (i : ℕ)
    → Within lo hi u
    → i < length (part_at db u e)
    → ((trans_at (part_at db u e) i).dstuid ≡ nowhere)
      ⊎ Within lo hi (trans_at (part_at db u e) i).dstuid

-- The second database has the region of the first with its dangling transitions aimed at `t`.
abbrev pub Redirected : Db → Db → ℕ → ℕ → ℕ → Type 0
Redirected db db' lo hi t =
    (u : ℕ) (e : Bool) → Within lo hi u → part_at db' u e ≡ map (redirect t) (part_at db u e)

unfoldable pub aimed : ℕ → ℕ → ℕ
aimed t u = if u == nowhere then t else u

pub dstuid-redirect : (t : ℕ) (x : Transition) → (redirect t x).dstuid ≡ aimed t x.dstuid
unfolding redirect aimed aim
dstuid-redirect t x = elim (Bool-cases (x.dstuid == nowhere)) [
  | inl h ↦ rw h refl
  | inr h ↦ rw h refl
]

Fits-redirect : (o : Option ℕ) (t : ℕ) (x : Transition) → Fits o (redirect t x) ↔ Fits o x
unfolding redirect aim
Fits-redirect none t x = (λ h. h, λ h. h)
Fits-redirect (some c) t x = elim (Bool-cases (x.dstuid == nowhere)) [
  | inl h ↦ rw h (λ k. k, λ k. k)
  | inr h ↦ rw h (λ k. k, λ k. k)
]

letter-++ : (o : Option ℕ) (x y : List ℕ) → letter o (x ++ y) ≡ (letter o x ++ y)
letter-++ none x y = refl
letter-++ (some c) x y = refl

pub state_at_over : (db : Db) (u : ℕ) → length db ≤ u → state_at db u ≡ missing
state_at_over [] u le = refl
state_at_over (s ∷ db) zero le = absurd (omega arith)
state_at_over (s ∷ db) (suc u) le = state_at_over db u (omega arith)

-- No transition leads on from a state that is not there.
pub Edge-over : (db : Db) (u : ℕ) (o : Option ℕ) (d : ℕ) → length db ≤ u → ¬ (Edge db u o d)
Edge-over db u none d le (i, lt, fit, q) =
    elim (subst (λ s. i < length (part true s)) (state_at_over db u le) lt) [ ]
Edge-over db u (some c) d le (i, lt, fit, q) =
    elim (subst (λ s. i < length (part false s)) (state_at_over db u le) lt) [ ]

pub aimed-nowhere : (t : ℕ) → aimed t nowhere ≡ t
unfolding aimed
aimed-nowhere t = refl

pub aimed_away : (t u : ℕ) → u < nowhere → aimed t u ≡ u
unfolding aimed
aimed_away t u lt =
    let no : (u == nowhere) ≡ false = ne→== u nowhere (λ e. omega arith) in rw no refl

-- One trace after the other.
pub Trace-++ :
    (db : Db) (n m u v t : ℕ) (x y : List ℕ)
    → Trace db n u x v
    → Trace db m v y t
    → Trace db (n + m) u (x ++ y) t
unfolding Trace
Trace-++ db zero m u v t x y (q, z) k =
    let sum : m ≡ zero + m = omega arith in
    subst (λ n. Trace db n u (x ++ y) t) sum
      (subst (λ w. Trace db m u (w ++ y) t) (sym z) (subst (λ a. Trace db m a y t) (sym q) k))
Trace-++ db (suc n) m u v t x y (o, x₁, d, p, e, k₁) k =
    let sum : suc (n + m) ≡ suc n + m = omega arith in
    subst (λ i. Trace db i u (x ++ y) t) sum
      (
        o,
        x₁ ++ y,
        d,
        ap (λ w. w ++ y) p ∙ sym (letter-++ o x₁ y),
        e,
        Trace-++ db n m d v t x₁ y k₁ k,
      )

-- Nothing is read where no state is.
pub Trace-nowhere :
    (db : Db) (n v : ℕ) (w : List ℕ) → length db ≤ nowhere → Trace db n nowhere w v → w ≡ []
unfolding Trace
Trace-nowhere db zero v w small (q, z) = z
Trace-nowhere db (suc n) v w small (o, x, d, p, e, k) = absurd (Edge-over db nowhere o d small e)

module _ (db db' : Db) (lo hi t : ℕ) (stays : Stays db lo hi) (r : Redirected db db' lo hi t) where
  Edge-forth : (o : Option ℕ) (u d : ℕ) → Within lo hi u → Edge db u o d → Edge db' u o (aimed t d)
  Edge-forth o u d w (i, lt, fit, q) =
      let same = r u (is_epsilon o) w in
      let ts = part_at db u (is_epsilon o) in
      let at_ : trans_at (part_at db' u (is_epsilon o)) i ≡ redirect t (trans_at ts i) =
        ap (λ xs. trans_at xs i) same ∙ trans_at-map t i ts lt in
      (
        i,
        subst (λ xs. i < length xs) (sym same) (omega (arith, length-map t ts)),
        subst (Fits o) (sym at_) ((Fits-redirect o t (trans_at ts i)).1 fit),
        ap (aimed t) q ∙ sym (dstuid-redirect t (trans_at ts i)) ∙ ap (λ x. x.dstuid) (sym at_),
      )

  Edge-back :
      (o : Option ℕ) (u d' : ℕ)
      → Within lo hi u
      → Edge db' u o d'
      → (d : ℕ) × Edge db u o d × (d' ≡ aimed t d) × (Within lo hi d ⊎ (d ≡ nowhere))
  Edge-back o u d' w (i, lt, fit, q) =
      let same = r u (is_epsilon o) w in
      let ts = part_at db u (is_epsilon o) in
      let room : i < length ts =
        omega (arith, length-map t ts, subst (λ xs. i < length xs) same lt) in
      let at_ : trans_at (part_at db' u (is_epsilon o)) i ≡ redirect t (trans_at ts i) =
        ap (λ xs. trans_at xs i) same ∙ trans_at-map t i ts room in
      (
        (trans_at ts i).dstuid,
        (i, room, (Fits-redirect o t (trans_at ts i)).0 (subst (Fits o) at_ fit), refl),
        q ∙ ap (λ x. x.dstuid) at_ ∙ dstuid-redirect t (trans_at ts i),
        elim (stays u (is_epsilon o) i w room) [ inl h ↦ inr h | inr h ↦ inl h ],
      )

  Edge-Within :
      (o : Option ℕ) (u d : ℕ) → Within lo hi u → Edge db u o d → Within lo hi d ⊎ (d ≡ nowhere)
  Edge-Within o u d w (i, lt, fit, q) = elim (stays u (is_epsilon o) i w lt) [
    | inl h ↦ inr (q ∙ h)
    | inr h ↦ inl (subst (Within lo hi) (sym q) h)
  ]

  module _ (room : hi ≤ length db) (small : length db ≤ nowhere) where
    -- A word that leads out of the region leads to `t`.
    pub Trace-forth :
        (n u : ℕ) (w : List ℕ)
        → Within lo hi u ⊎ (u ≡ nowhere)
        → Trace db n u w nowhere
        → Trace db' n (aimed t u) w t
    unfolding Trace
    Trace-forth zero u w h (q, z) = (ap (aimed t) q ∙ aimed-nowhere t, z)
    Trace-forth (suc n) u w (inr q) (o, x, d, p, e, k) = absurd (Edge-over db u o d (omega arith) e)
    Trace-forth (suc n) u w (inl h) (o, x, d, p, e, k) = (
      o,
      x,
      aimed t d,
      p,
      subst (λ v. Edge db' v o (aimed t d)) (sym (aimed_away t u (omega arith)))
          (Edge-forth o u d h e),
      Trace-forth n d x (Edge-Within o u d h e) k,
    )

    -- A word that leads from the region elsewhere leads out of the region to `t` first.
    pub Trace-back :
        (n u v : ℕ) (w : List ℕ)
        → Within lo hi u ⊎ (u ≡ nowhere)
        → (v < lo) ⊎ (hi ≤ v)
        → Trace db' n (aimed t u) w v
        → (k : ℕ) × (m : ℕ) × (x : List ℕ) × (y : List ℕ) × (w ≡ x ++ y)
          × Trace db k u x nowhere
          × Trace db' m t y v
          × (k + m ≡ n)
    unfolding Trace
    Trace-back n u v w (inr q) out k = (
      0,
      n,
      [],
      w,
      refl,
      (q, refl),
      subst (λ a. Trace db' n a w v) (ap (aimed t) q ∙ aimed-nowhere t) k,
      omega arith,
    )
    Trace-back zero u v w (inl h) out (q, z) =
        let same = aimed_away t u (omega arith) in absurd (omega arith)
    Trace-back (suc n) u v w (inl h) out (o, x, d, p, e, k) =
        let (d₀, e₀, q, next) =
          Edge-back o u d h (subst (λ a. Edge db' a o d) (aimed_away t u (omega arith)) e) in
        let (k₁, m, x₁, y, q₁, first, then_, sum) =
          Trace-back n d₀ v x next out (subst (λ a. Trace db' n a x v) q k) in
        (
          suc k₁,
          m,
          letter o x₁,
          y,
          p ∙ ap (letter o) q₁ ∙ letter-++ o x₁ y,
          (o, x₁, d₀, refl, e₀, first),
          then_,
          omega arith,
        )
