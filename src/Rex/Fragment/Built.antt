-- ===== src/Rex/Fragment/Built.antt =====
-- A fragment that stands in a region of the database, and what a patch of its dangling transitions
-- does to the region and to the states outside.
use rpatk.Base.{
  ℕ, zero, suc, ◌<◌, ◌≤◌, ◌≡◌, ◌⊎◌, refl, sym, ap, ◌∙◌, Bool, true, false, Bool-cases, inl, inr,
  List, [], ◌∷◌, map, length, ltb, leb, ◌==◌, ==_iff, ◌&&◌, ne→==, arith,
}
use mathlib.Core.Path.{subst}
use rpatk.Rex.Transition.{Transition, trans_at}
use rpatk.Rex.State.{Db}
use rpatk.Rex.Fragment.{Fragment, nowhere, aim, patch}
use rpatk.Rex.Fragment.Places.{
  hit, part_at, redirect, trans_at-map, length-map, part_at-patch, part_at-patch_away,
}
use rpatk.Rex.Fragment.Named.{dangles, dangles_in, dangles_in_at}
use rpatk.Rex.Fragment.Traces.{
  Within, Stays, Redirected, aimed, aimed_away, aimed-nowhere, dstuid-redirect,
}

abbrev pub within : ℕ → ℕ → ℕ → Bool
within lo hi u = leb lo u && ltb u hi

pub within-Within : (lo hi u : ℕ) → Within lo hi u → within lo hi u ≡ true
within-Within lo hi u h = ground arith

pub within_out : (lo hi u : ℕ) → (u < lo) ⊎ (hi ≤ u) → within lo hi u ≡ false
within_out lo hi u h = ground arith

-- The fragment's states are those of the region `lo` to `hi`, and it knows all transitions of the
-- region that lead nowhere.
pub record IsFragment (db : Db) (f : Fragment) (lo hi : ℕ) : Type 0 where
  pub begins : Within lo hi f.sstate
  pub room : hi ≤ length db
  pub small : length db ≤ nowhere
  pub stays : Stays db lo hi
  pub named :
      (u : ℕ) (e : Bool) (i : ℕ) → hit f.dangling u e i ≡ (within lo hi u && dangles db u e i)

-- Nothing of a list that was aimed at a state dangles.
pub dangles_in-map :
    (t : ℕ) (ts : List Transition) (i : ℕ)
    → t < nowhere
    → dangles_in (map (redirect t) ts) i ≡ false
unfolding dangles_in redirect aim
dangles_in-map t [] i lt = refl
dangles_in-map t (x ∷ ts) zero lt = elim (Bool-cases (x.dstuid == nowhere)) [
  | inl h ↦ rw h (ne→== t nowhere (λ e. omega arith))
  | inr h ↦ rw h h
]
dangles_in-map t (x ∷ ts) (suc i) lt = dangles_in-map t ts i lt

redirect-nowhere : (x : Transition) → redirect nowhere x ≡ x
unfolding redirect aim
redirect-nowhere x = elim (Bool-cases (x.dstuid == nowhere)) [
  | inl h ↦ rw h (ap (λ n. record x { dstuid = n }) (sym ((==_iff x.dstuid nowhere).0 h)))
  | inr h ↦ rw h refl
]

pub map-redirect-nowhere : (ts : List Transition) → map (redirect nowhere) ts ≡ ts
map-redirect-nowhere [] = refl
map-redirect-nowhere (t ∷ ts) = let rest = map-redirect-nowhere ts in cc (redirect-nowhere t)

module _ (db : Db) (f : Fragment) (lo hi : ℕ) (h : IsFragment db f lo hi) (t : ℕ) where
  pub patch-Redirected : Redirected db (patch db f.dangling t) lo hi t
  patch-Redirected u e w =
      part_at-patch db f.dangling t u e (let r = h.room in omega arith) (λ i lt.
        h.named u e i
        ∙ ap (λ b. b && dangles db u e i) (within-Within lo hi u w)
        ∙ dangles_in_at (part_at db u e) i lt)

  pub patch_outside :
      (u : ℕ) (e : Bool)
      → u < length db
      → (u < lo) ⊎ (hi ≤ u)
      → part_at (patch db f.dangling t) u e ≡ part_at db u e
  patch_outside u e lt out =
      part_at-patch_away db f.dangling t u e lt
        (λ i _. h.named u e i ∙ ap (λ b. b && dangles db u e i) (within_out lo hi u out))

-- The transitions of a region that was aimed at `t` stay in a wider one that has `t`.
pub Redirected-Stays :
    (db db' : Db) (lo hi t lo' hi' : ℕ)
    → Stays db lo hi
    → Redirected db db' lo hi t
    → (lo' ≤ lo) × (hi ≤ hi') × (hi' ≤ nowhere)
    → (t ≡ nowhere) ⊎ Within lo' hi' t
    → (u : ℕ) (e : Bool) (i : ℕ) → Within lo hi u
    → i < length (part_at db' u e)
    → ((trans_at (part_at db' u e) i).dstuid ≡ nowhere)
      ⊎ Within lo' hi' (trans_at (part_at db' u e) i).dstuid
Redirected-Stays db db' lo hi t lo' hi' stays r wide to u e i w lt =
    let ts = part_at db u e in
    let old : i < length ts =
      omega (arith, length-map t ts, subst (λ xs. i < length xs) (r u e w) lt) in
    let q : (trans_at (part_at db' u e) i).dstuid ≡ aimed t (trans_at ts i).dstuid =
      ap (λ xs. (trans_at xs i).dstuid) (r u e w)
      ∙ ap (λ x. x.dstuid) (trans_at-map t i ts old)
      ∙ dstuid-redirect t (trans_at ts i) in
    elim (stays u e i w old) [
      | inl n ↦
          subst (λ d. (d ≡ nowhere) ⊎ Within lo' hi' d) (sym (q ∙ ap (aimed t) n ∙ aimed-nowhere t))
            to
      | inr n ↦ inr (
          subst (Within lo' hi') (sym (q ∙ aimed_away t (trans_at ts i).dstuid (omega arith)))
            (omega arith))
    ]

-- Where the ends are aimed at a state, no transition of the region leads nowhere.
pub Redirected-Within :
    (db db' : Db) (lo hi t lo' hi' : ℕ)
    → Stays db lo hi
    → Redirected db db' lo hi t
    → (lo' ≤ lo) × (hi ≤ hi') × (hi' ≤ nowhere)
    → Within lo' hi' t
    → (u : ℕ) (e : Bool) (i : ℕ) → Within lo hi u
    → i < length (part_at db' u e)
    → Within lo' hi' (trans_at (part_at db' u e) i).dstuid
Redirected-Within db db' lo hi t lo' hi' stays r wide to u e i w lt =
    let ts = part_at db u e in
    let old : i < length ts =
      omega (arith, length-map t ts, subst (λ xs. i < length xs) (r u e w) lt) in
    let q : (trans_at (part_at db' u e) i).dstuid ≡ aimed t (trans_at ts i).dstuid =
      ap (λ xs. (trans_at xs i).dstuid) (r u e w)
      ∙ ap (λ x. x.dstuid) (trans_at-map t i ts old)
      ∙ dstuid-redirect t (trans_at ts i) in
    elim (stays u e i w old) [
      | inl n ↦ subst (Within lo' hi') (sym (q ∙ ap (aimed t) n ∙ aimed-nowhere t)) to
      | inr n ↦
          subst (Within lo' hi') (sym (q ∙ aimed_away t (trans_at ts i).dstuid (omega arith)))
            (omega arith)
    ]
