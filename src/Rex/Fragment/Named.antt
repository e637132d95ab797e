-- ===== src/Rex/Fragment/Named.antt =====
-- Which transitions the array `dangling` names: `rex_fragment_append`, the loops of
-- `rex_fragment_state_add_dangling`.
use rpatk.Base.{
  ℕ, zero, suc, ◌+◌, ◌<◌, ◌≤◌, ◌≡◌, refl, sym, ap, ◌∙◌, Bool, true, false, ◌&&◌, ◌||◌, Bool-cases,
  inl, inr, List, [], ◌∷◌, ◌++◌, length, ◌==◌, ==_iff, ne→==, arith, if◌then◌else◌,
}
use rpatk.Rex.Transition.{Transition, trans_at}
use rpatk.Rex.State.{Db, state_at}
use rpatk.Rex.Fragment.{Place, nowhere, append, add_loop, add_dangling}
use rpatk.Rex.Fragment.Places.{hit, is_place, same_bool, part_at}

-- whether the list has a transition at `i` that leads nowhere
unfoldable pub dangles_in : List Transition → ℕ → Bool
dangles_in [] i = false
dangles_in (t ∷ ts) zero = t.dstuid == nowhere
dangles_in (t ∷ ts) (suc i) = dangles_in ts i

abbrev pub dangles : Db → ℕ → Bool → ℕ → Bool
dangles db u e i = dangles_in (part_at db u e) i

pub dangles_in_at :
    (ts : List Transition) (i : ℕ)
    → i < length ts
    → dangles_in ts i ≡ ((trans_at ts i).dstuid == nowhere)
unfolding dangles_in
dangles_in_at [] i lt = elim lt [ ]
dangles_in_at (t ∷ ts) zero lt = refl
dangles_in_at (t ∷ ts) (suc i) lt = dangles_in_at ts i (omega arith)

pub dangles_in_past : (ts : List Transition) (i : ℕ) → length ts ≤ i → dangles_in ts i ≡ false
unfolding dangles_in
dangles_in_past [] i le = refl
dangles_in_past (t ∷ ts) zero le = absurd (omega arith)
dangles_in_past (t ∷ ts) (suc i) le = dangles_in_past ts i (omega arith)

or_assoc : (a b c : Bool) → ((a || b) || c) ≡ (a || (b || c))
or_assoc true b c = refl
or_assoc false b c = refl

pub or_false : (a : Bool) → (a || false) ≡ a
or_false true = refl
or_false false = refl

hit-++ :
    (ps qs : List Place) (u : ℕ) (e : Bool) (i : ℕ)
    → hit (ps ++ qs) u e i ≡ (hit ps u e i || hit qs u e i)
unfolding hit
hit-++ [] qs u e i = refl
hit-++ (p ∷ ps) qs u e i =
    ap (λ b. is_place p u e i || b) (hit-++ ps qs u e i)
    ∙ sym (or_assoc (is_place p u e i) (hit ps u e i) (hit qs u e i))

-- The places of both.
pub hit-append :
    (ps qs : List Place) (u : ℕ) (e : Bool) (i : ℕ)
    → hit (append ps qs) u e i ≡ (hit ps u e i || hit qs u e i)
unfolding append hit
hit-append ps [] u e i = sym (or_false (hit ps u e i))
hit-append ps (q ∷ qs) u e i =
    hit-append (ps ++ q ∷ []) qs u e i
    ∙ ap (λ b. b || hit qs u e i)
        (hit-++ ps (q ∷ []) u e i ∙ ap (λ b. hit ps u e i || b) (or_false (is_place q u e i)))
    ∙ or_assoc (hit ps u e i) (is_place q u e i) (hit qs u e i)

-- the transitions of the loop, from the index `k` on
from_index : List Transition → ℕ → ℕ → Bool
from_index [] k i = false
from_index (t ∷ ts) k i = ((k == i) && (t.dstuid == nowhere)) || from_index ts (suc k) i

from_index_below : (ts : List Transition) (k i : ℕ) → i < k → from_index ts k i ≡ false
unfolding from_index
from_index_below [] k i lt = refl
from_index_below (t ∷ ts) k i lt =
    let rest = from_index_below ts (suc k) i (omega arith) in ground arith

from_index_lem : (ts : List Transition) (k i : ℕ) → from_index ts k (k + i) ≡ dangles_in ts i
unfolding from_index dangles_in
from_index_lem [] k i = refl
from_index_lem (t ∷ ts) k zero =
    let rest = from_index_below ts (suc k) (k + 0) (omega arith) in
    let same : (k == (k + 0)) ≡ true = (==_iff k (k + 0)).1 (omega arith) in
    rw same (ap (λ b. (t.dstuid == nowhere) || b) rest ∙ or_false (t.dstuid == nowhere))
from_index_lem (t ∷ ts) k (suc i) =
    let rest = from_index_lem ts (suc k) i in
    let q : suc k + i ≡ k + suc i = omega arith in
    let other : (k == (k + suc i)) ≡ false = ne→== k (k + suc i) (λ e. omega arith) in
    rw other (ap (λ n. from_index ts (suc k) n) (sym q) ∙ rest)

from_start : (ts : List Transition) (i : ℕ) → from_index ts 0 i ≡ dangles_in ts i
from_start ts i = ap (from_index ts 0) (omega arith) ∙ from_index_lem ts 0 i

mine : ℕ → Bool → ℕ → Bool → Bool
mine a b u e = (a == u) && same_bool b e

nothing : (o m : Bool) → (o || (m && false)) ≡ o
nothing true m = refl
nothing false true = refl
nothing false false = refl

one_more :
    (o a s k r : Bool)
    → ((o || ((a && (s && k)) || false)) || ((a && s) && r))
      ≡ (o || ((a && s) && ((k && true) || r)))
one_more true a s k r = refl
one_more false true true true r = refl
one_more false true true false r = refl
one_more false true false k r = refl
one_more false false s k r = refl

and_false_or : (k r : Bool) → ((k && false) || r) ≡ r
and_false_or true r = refl
and_false_or false r = refl

hit-add_loop :
    (out : List Place) (a : ℕ) (b : Bool) (ts : List Transition) (k u : ℕ) (e : Bool) (i : ℕ)
    → hit (add_loop out a b ts k) u e i ≡ (hit out u e i || (mine a b u e && from_index ts k i))
unfolding add_loop from_index mine hit
hit-add_loop out a b [] k u e i = sym (nothing (hit out u e i) (mine a b u e))
hit-add_loop out a b (t ∷ ts) k u e i = elim (Bool-cases (t.dstuid == nowhere)) [
  | inl free ↦
      let p : Place = record { uid = a; is_empty = b; index = k } in
      rw free (
        hit-add_loop (out ++ p ∷ []) a b ts (suc k) u e i
        ∙ ap (λ h. h || (mine a b u e && from_index ts (suc k) i)) (hit-++ out (p ∷ []) u e i)
        ∙ one_more (hit out u e i) (a == u) (same_bool b e) (k == i) (from_index ts (suc k) i))
  | inr aimed ↦ rw aimed (
      hit-add_loop out a b ts (suc k) u e i
      ∙ ap (λ h. hit out u e i || (mine a b u e && h))
          (sym (and_false_or (k == i) (from_index ts (suc k) i))))
]

two_lists :
    (o m f g : Bool)
    → (e : Bool)
    → ((o || ((m && same_bool false e) && f)) || ((m && same_bool true e) && g))
      ≡ (o || (m && (if e then g else f)))
two_lists true m f g e = refl
two_lists false true f g true = refl
two_lists false true true g false = refl
two_lists false true false g false = refl
two_lists false false f g e = refl

pick :
    (db : Db) (u : ℕ) (e : Bool) (i : ℕ)
    → (if e then dangles db u true i else dangles db u false i) ≡ dangles db u e i
pick db u true i = refl
pick db u false i = refl

-- The transitions of the state that lead nowhere are added, and no other.
pub hit-add_dangling :
    (db : Db) (out : List Place) (a u : ℕ) (e : Bool) (i : ℕ)
    → hit (add_dangling db out a) u e i ≡ (hit out u e i || ((a == u) && dangles db u e i))
unfolding add_dangling mine
hit-add_dangling db out a u e i =
    let s = state_at db a in
    hit-add_loop (add_loop out a false s.trans 0) a true s.etrans 0 u e i
    ∙ ap (λ h. h || (mine a true u e && from_index s.etrans 0 i))
        (hit-add_loop out a false s.trans 0 u e i)
    ∙ two_lists (hit out u e i) (a == u) (from_index s.trans 0 i) (from_index s.etrans 0 i) e
    ∙ ap (λ f. hit out u e i || ((a == u) && (if e then from_index s.etrans 0 i else f)))
        (from_start s.trans i)
    ∙ ap (λ g. hit out u e i || ((a == u) && (if e then g else dangles_in s.trans i)))
        (from_start s.etrans i)
    ∙ ap (λ h. hit out u e i || h)
        (elim (Bool-cases (a == u)) [
          | inl same ↦ rw same (
              ap (λ n. if e then dangles db n true i else dangles db n false i)
                ((==_iff a u).0 same)
              ∙ pick db u e i)
          | inr other ↦ rw other refl
        ])
