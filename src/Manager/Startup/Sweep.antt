-- ===== src/Manager/Startup/Sweep.antt =====
-- What the sweep at the start leaves.
use cartesi_release_validati.Prelude.{
  ◌≡◌, refl, sym, ap, ◌∙◌, inl, inr, Bool, true, false, not, ◌||◌, String, List, [], ◌∷◌, ◌++◌, map,
  append-nil, append_assoc, arith, eq_iff, str_eq, Bool-cases, keep, all, any, In, In-keep_iff,
}
use cartesi_release_validati.Manager.Startup.{
  SandboxRow, Swept, is_live, teardown_of, mark_closed, finally_mark, sweep_one, sweep_each,
  sweep_orphaned_sandboxes,
}

-- Every live row is one of these, or its update raises.
abbrev pub live_among : (String → Bool) → List SandboxRow → List SandboxRow → Bool
live_among update_raises orphans rows =
    all (λ r. not (is_live r.status) || (update_raises r.id || any (λ o. str_eq o.id r.id) orphans))
      rows

finally_mark-live_among :
    (u : String → Bool) (sbx : SandboxRow) (orphans rows : List SandboxRow)
    → live_among u (sbx ∷ orphans) rows ≡ true
    → live_among u orphans (finally_mark (u sbx.id) sbx.id rows) ≡ true
unfolding mark_closed
finally_mark-live_among u sbx orphans [] h = ground arith
finally_mark-live_among u sbx orphans (r ∷ rows) h = elim (Bool-cases (u sbx.id)) [
  | inl y ↦ elim (Bool-cases (str_eq sbx.id r.id)) [
    | inl same ↦
        let raised : u r.id ≡ true = ap u (sym ((eq_iff sbx.id r.id).0 same)) ∙ y in
        ground (arith, finally_mark-live_among u sbx orphans rows)
    | inr other ↦ ground (arith, finally_mark-live_among u sbx orphans rows)
  ]
  | inr n ↦
      ground
        (arith, finally_mark-live_among u sbx orphans rows, eq_iff r.id sbx.id, eq_iff sbx.id r.id)
]

sweep_each-rows :
    (t u : String → Bool) (orphans : List SandboxRow) (s : Swept)
    → live_among u orphans s.rows ≡ true
    → live_among u [] (sweep_each t u orphans s).rows ≡ true
unfolding sweep_each
sweep_each-rows t u [] s h = h
sweep_each-rows t u (sbx ∷ orphans) s h =
    sweep_each-rows t u orphans (sweep_one (t sbx.id) (u sbx.id) sbx s) (by_call (t sbx.id))
  where
    by_call : (raises : Bool) → live_among u orphans (sweep_one raises (u sbx.id) sbx s).rows ≡ true
    by_call true = finally_mark-live_among u sbx orphans s.rows h
    by_call false = finally_mark-live_among u sbx orphans s.rows h

sweep_one-calls :
    (t u : Bool) (sbx : SandboxRow) (s : Swept)
    → (sweep_one t u sbx s).calls ≡ s.calls ++ (teardown_of sbx ∷ [])
sweep_one-calls true u sbx s = refl
sweep_one-calls false u sbx s = refl

sweep_each-calls :
    (t u : String → Bool) (orphans : List SandboxRow) (s : Swept)
    → (sweep_each t u orphans s).calls ≡ s.calls ++ map teardown_of orphans
unfolding sweep_each
sweep_each-calls t u [] s = sym (append-nil s.calls)
sweep_each-calls t u (sbx ∷ orphans) s =
    sweep_each-calls t u orphans (sweep_one (t sbx.id) (u sbx.id) sbx s)
    ∙ rw (sweep_one-calls (t sbx.id) (u sbx.id) sbx s, append_assoc) refl

any-In :
    (r : SandboxRow) (orphans : List SandboxRow)
    → In r orphans
    → any (λ o. str_eq o.id r.id) orphans ≡ true
any-In r [] i = elim i [ ]
any-In r (o ∷ orphans) (inl e) =
    let same : str_eq o.id r.id ≡ true = (eq_iff o.id r.id).1 (ap (λ x. x.id) e) in ground arith
any-In r (o ∷ orphans) (inr i) = ground (arith, any-In r orphans i)

live_among-intro :
    (u : String → Bool) (orphans rows : List SandboxRow)
    → ((r : SandboxRow)
        → In r rows
        → is_live r.status ≡ true
        → any (λ o. str_eq o.id r.id) orphans ≡ true)
    → live_among u orphans rows ≡ true
live_among-intro u orphans [] h = refl
live_among-intro u orphans (r ∷ rows) h =
    let later = live_among-intro u orphans rows (λ x i. h x (inr i)) in
    elim (Bool-cases (is_live r.status)) [
      | inl y ↦ let here = h r (inl refl) y in ground arith
      | inr n ↦ ground arith
    ]

live_among-keep :
    (u : String → Bool) (rows : List SandboxRow)
    → live_among u (keep (λ r. is_live r.status) rows) rows ≡ true
live_among-keep u rows = live_among-intro u (keep (λ r. is_live r.status) rows) rows (λ r i live.
    any-In r (keep (λ o. is_live o.status) rows)
      ((In-keep_iff (λ o. is_live o.status) r rows).1 (i, live)))

live_among-nil :
    (u : String → Bool) (rows : List SandboxRow)
    → live_among u [] rows ≡ true
    → all (λ r. not (is_live r.status) || u r.id) rows ≡ true
live_among-nil u [] h = refl
live_among-nil u (r ∷ rows) h = ground (arith, live_among-nil u rows)

-- If its query succeeds, the sweep calls the teardown once for each row that is 'provisioning' or
-- 'ready', in order, and leaves no such row but those whose update raises, whichever of the
-- teardowns raise.
pub sweep_orphaned_sandboxes_lem :
    (teardown_raises update_raises : String → Bool) (rows : List SandboxRow)
    → (all
          (λ r. not (is_live r.status) || update_raises r.id)
          (sweep_orphaned_sandboxes false teardown_raises update_raises rows).rows
        ≡ true)
      × ((sweep_orphaned_sandboxes false teardown_raises update_raises rows).calls
          ≡ map teardown_of (keep (λ r. is_live r.status) rows))
unfolding sweep_orphaned_sandboxes
sweep_orphaned_sandboxes_lem teardown_raises update_raises rows =
    let start : Swept = record { rows = rows; calls = [] } in
    let orphans = keep (λ r. is_live r.status) rows in
    let swept = sweep_each teardown_raises update_raises orphans start in
    let closed_all =
      sweep_each-rows teardown_raises update_raises orphans start
        (live_among-keep update_raises rows) in
    (
      live_among-nil update_raises swept.rows closed_all,
      sweep_each-calls teardown_raises update_raises orphans start,
    )
