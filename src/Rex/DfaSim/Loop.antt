-- ===== src/Rex/DfaSim/Loop.antt =====
-- `rex_dfasimulator_run` returns the size of the longest prefix that the DFA accepts.
use rpatk.Base.{
  ℕ, zero, suc, ◌+◌, ◌<◌, ◌≤◌, ◌≡◌, ◌≢◌, inl, inr, refl, sym, ◌∙◌, ap, true, Bool-cases, Option,
  some, List, [], ◌∷◌, length, arith, if◌then◌else◌, ◌==◌, ==_iff, ==→ne, drop, length-drop, take,
}
use mathlib.Core.Path.{subst}
use rpatk.Utf.{utf8_mbtowc}
use rpatk.Utf.Utf8.{mbtowc_advance}
use rpatk.Rex.Transition.{Transition, transitions_find, char_max}
use rpatk.Rex.State.{Db, state_at}
use rpatk.Rex.NfaSim.{is_accept}
use rpatk.Rex.NfaSim.Run.{decode, chars}
use rpatk.Rex.DfaSim.{
  DfaSim, start_dfa, enter, follow, step_from, next_dfa, dfa_loop, last_size, run_dfa,
}
use rpatk.Rex.DfaSim.Longest.{
  IsDfa, after, accepting, Accepts, IsLongest, AreChars, last_size-append, pointer_to_lem,
  after-suc,
}

-- the longest prefix, one character further to the front
IsLongest-step :
    (db : Db) (u c inc from best best' r : ℕ) (w : List (ℕ × ℕ)) (t : Transition)
    → u ≢ 0
    → transitions_find (state_at db u).trans c ≡ some t
    → best' ≡ (if is_accept (state_at db t.dstuid).kind then from + inc else best)
    → IsLongest db t.dstuid w (from + inc) best' r
    → IsLongest db u ((c, inc) ∷ w) from best r
unfolding after
IsLongest-step db u c inc from best best' r w t alive found now longest =
    let same : (n : ℕ) → Accepts db u ((c, inc) ∷ w) (suc n) ≡ Accepts db t.dstuid w n =
      λ n. ap (λ v. accepting db v ≡ true) (after-suc db u c (chars (take n w)) t alive found) in
    let longer : (low : ℕ)
        → ((m : ℕ) → low < m → m ≤ length w → ¬ Accepts db t.dstuid w m)
        → (m : ℕ) → suc low < m
        → m ≤ suc (length w)
        → ¬ Accepts db u ((c, inc) ∷ w) m =
      λ low no_later m.
        elim m as (λ m. suc low < m → m ≤ suc (length w) → ¬ Accepts db u ((c, inc) ∷ w) m) [
          | zero ↦ λ lt le k. absurd (omega arith)
          | suc n ↦ λ lt le k. no_later n (omega arith) (omega arith) (subst (λ X. X) (same n) k)
        ] in
    elim longest [
      | inr (n, positive, inside, accepts, e, no_later) ↦ inr (
        suc n,
        omega arith,
        omega arith,
        subst (λ X. X) (sym (same n)) accepts,
        omega (arith, e),
        longer n no_later,
      )
      | inl (e, none_later) ↦
          let no_later : (m : ℕ) → 0 < m → m ≤ length w → ¬ Accepts db t.dstuid w m =
            λ m lt le. none_later m (omega arith) le in
          elim (Bool-cases (is_accept (state_at db t.dstuid).kind)) [
            | inl yes_ ↦ inr (
              1,
              omega arith,
              omega arith,
              subst (λ X. X) (sym (same 0)) yes_,
              (e ∙ now ∙ rw yes_ (omega arith)),
              longer 0 no_later,
            )
            | inr no_ ↦ inl (
              e ∙ now ∙ rw no_ refl,
              λ m. elim m as (λ m. 1 ≤ m → m ≤ suc (length w) → ¬ Accepts db u ((c, inc) ∷ w) m) [
                | zero ↦ λ lt le k. absurd (omega arith)
                | suc n ↦ λ lt le k.
                    elim n as (λ n. n ≤ length w → Accepts db u ((c, inc) ∷ w) (suc n) → ⊥) [
                      | zero ↦ λ le' k'. absurd (cc (no_, subst (λ X. X) (same 0) k'))
                      | suc i ↦ λ le' k'.
                          no_later (suc i) (omega arith) le' (subst (λ X. X) (same (suc i)) k')
                    ]
                      (omega arith) k
              ],
            )
          ]
    ]

-- a step from a state that is not dead
next_dfa_lem :
    (db : Db) (s : DfaSim) (u c inc : ℕ)
    → IsDfa db
    → s.next ≡ some u
    → u < length db
    → u ≢ 0
    → c ≤ char_max
    → (t : Transition) × (transitions_find (state_at db u).trans c ≡ some t)
      × (t.dstuid < length db)
      × (next_dfa db s c inc
          ≡ some (
            enter db (record s { count = s.count + 1; inputsize = s.inputsize + inc }) t.dstuid,
            t.dstuid,
          ))
unfolding next_dfa step_from follow enter
next_dfa_lem db s u c inc ok at lt alive small =
    let (t, found, inside) = ok.total u c lt alive small in
    (
      t,
      found,
      inside,
      rw
          (
            at,
            step_from,
            ok.alive u lt alive,
            found,
            follow,
            pointer_to_lem db t.dstuid inside,
            ok.numbered t.dstuid inside,
          )
          refl,
    )

-- and from the dead state
next_dfa_dead :
    (db : Db) (s : DfaSim) (c inc : ℕ)
    → IsDfa db
    → s.next ≡ some 0
    → next_dfa db s c inc
      ≡ some (record s { count = s.count + 1; inputsize = s.inputsize + inc; next = some 0 }, 0)
unfolding next_dfa step_from
next_dfa_dead db s c inc ok at =
    let stopped : Option ℕ → DfaSim =
      λ n. record s { count = s.count + 1; inputsize = s.inputsize + inc; next = n } in
    rw (at, step_from, ok.dead_zero) (ap (λ n. some (stopped n, 0)) at)

last_size-enter :
    (db : Db) (s : DfaSim) (v otherwise : ℕ)
    → last_size otherwise (enter db s v).accepts
      ≡ (if is_accept (state_at db v).kind then s.inputsize else last_size otherwise s.accepts)
unfolding enter
last_size-enter db s v otherwise = elim (Bool-cases (is_accept (state_at db v).kind)) [
  | inl yes_ ↦ rw yes_ (
      last_size-append otherwise s.accepts
        (record { state = v; inputsize = s.inputsize; count = s.count }))
  | inr no_ ↦ rw no_ refl
]

enter_next : (db : Db) (s : DfaSim) (v : ℕ) → (enter db s v).next ≡ some v
unfolding enter
enter_next db s v = refl

enter_size : (db : Db) (s : DfaSim) (v : ℕ) → (enter db s v).inputsize ≡ s.inputsize
unfolding enter
enter_size db s v = refl

-- nothing is accepted behind the dead state
dead-IsLongest : (db : Db) (w : List (ℕ × ℕ)) (from best : ℕ) → IsLongest db 0 w from best best
unfolding after
dead-IsLongest db [] from best = inl (refl, λ n p q k. omega (arith, p, q))
dead-IsLongest db ((c, inc) ∷ w) from best = inl (
  refl,
  λ n. elim n as (λ n. 1 ≤ n → n ≤ suc (length w) → ¬ Accepts db 0 ((c, inc) ∷ w) n) [
    | zero ↦ λ p q k. absurd (omega (arith, p))
    | suc m ↦ λ p q k. ground arith
  ],
)

dfa_loop_lem :
    (fuel : ℕ) (db : Db) (s : DfaSim) (u : ℕ) (bytes : List ℕ)
    → IsDfa db
    → s.next ≡ some u
    → u < length db
    → AreChars (chars (decode fuel bytes))
    → length bytes < fuel
    → (t : DfaSim) × (dfa_loop fuel db s bytes ≡ some t)
      × ((best : ℕ)
          → IsLongest db u
              (decode fuel bytes)
              s.inputsize
              (last_size best s.accepts)
              (last_size best t.accepts))
unfolding dfa_loop decode
dfa_loop_lem zero db s u bytes ok at inside small lt = elim lt [ ]
dfa_loop_lem (suc fuel) db s u bytes ok at inside small lt =
    let wc = (utf8_mbtowc bytes).0 in
    let inc = (utf8_mbtowc bytes).1 in
    let advance = mbtowc_advance bytes in
    elim (Bool-cases (inc == 0)) [
      | inl done ↦ (
        s,
        rw (done, dfa_loop) refl,
        λ best. rw done (inl (refl, λ n p q k. omega (arith, p, q))),
      )
      | inr more ↦
          let (fits, rest_small) = rw more at small in
          elim (Bool-cases (u == 0)) [
            | inl dead_ ↦
                let e = (==_iff u 0).0 dead_ in
                let s' = record s {
                  count = s.count + 1;
                  inputsize = s.inputsize + inc;
                  next = some 0;
                } in
                (
                  s',
                  rw (more, dfa_loop, next_dfa_dead db s wc inc ok (at ∙ ap some e)) refl,
                  λ best.
                      rw (more, e)
                        (dead-IsLongest db ((wc, inc) ∷ decode fuel (drop inc bytes)) s.inputsize
                          (last_size best s.accepts)),
                )
            | inr alive_ ↦
                let alive = ==→ne u 0 alive_ in
                let (t, found, goes, steps) = next_dfa_lem db s u wc inc ok at inside alive fits in
                let s' =
                  enter db (record s { count = s.count + 1; inputsize = s.inputsize + inc })
                    t.dstuid in
                let now : (best : ℕ)
                    → last_size best s'.accepts ≡ (
                        if is_accept (state_at db t.dstuid).kind
                        then s.inputsize + inc
                        else last_size best s.accepts) =
                  λ best. last_size-enter db _ t.dstuid best in
                let longest : (best r : ℕ)
                    → IsLongest db t.dstuid (decode fuel (drop inc bytes)) (s.inputsize + inc)
                        (last_size best s'.accepts) r
                    → IsLongest db u ((wc, inc) ∷ decode fuel (drop inc bytes)) s.inputsize
                        (last_size best s.accepts) r =
                  λ best r k.
                    IsLongest-step db u wc inc s.inputsize (last_size best s.accepts)
                      (last_size best s'.accepts) r (decode fuel (drop inc bytes)) t alive found
                      (now best) k in
                elim (Bool-cases (t.dstuid == 0)) [
                  | inl over ↦
                      let e = (==_iff t.dstuid 0).0 over in
                      (
                        s',
                        rw (more, dfa_loop, steps, over) refl,
                        λ best. rw more (
                            longest best _ (
                              subst
                                (λ v.
                                  IsLongest db v (decode fuel (drop inc bytes)) (s.inputsize + inc)
                                    (last_size best s'.accepts) (last_size best s'.accepts))
                                (sym e)
                                (dead-IsLongest db (decode fuel (drop inc bytes))
                                  (s.inputsize + inc) (last_size best s'.accepts)))),
                      )
                  | inr on ↦
                      let (r, runs, best_of) =
                        dfa_loop_lem fuel db s' t.dstuid (drop inc bytes) ok
                          (enter_next db _ t.dstuid) goes rest_small
                          (omega (arith, length-drop inc bytes, ==→ne _ _ more)) in
                      (
                        r,
                        rw (more, dfa_loop, steps, on) runs,
                        λ best. rw more (
                            longest best _ (
                              subst
                                (λ k.
                                  IsLongest db t.dstuid (decode fuel (drop inc bytes)) k
                                    (last_size best s'.accepts) (last_size best r.accepts))
                                (enter_size db _ t.dstuid) (best_of best))),
                      )
                ]
          ]
    ]

-- A run over a text ends within its fuel, follows no transition that is not there, and returns the
-- size of the longest prefix of at least one character that the DFA accepts, or 0 if it accepts
-- none: for a DFA as the subset construction makes it, a state of it and a text of characters.
pub run_dfa-IsLongest :
    (db : Db) (uid : ℕ) (bytes : List ℕ)
    → IsDfa db
    → uid < length db
    → AreChars (chars (decode (suc (length bytes)) bytes))
    → (t : DfaSim) × (r : ℕ) × (run_dfa db uid bytes ≡ some (t, r))
      × IsLongest db uid (decode (suc (length bytes)) bytes) 0 0 r
unfolding run_dfa start_dfa last_size
run_dfa-IsLongest db uid bytes ok inside small =
    let (t, runs, longest) =
      dfa_loop_lem (suc (length bytes)) db (start_dfa db uid) uid bytes ok
        (pointer_to_lem db uid inside) inside small (omega arith) in
    (t, last_size 0 t.accepts, rw (runs, run_dfa) refl, longest 0)
