-- ===== src/Oom/Relief.antt =====
-- How many children are killed.
use mathlib.Core.List.{Perm}
use py_qgis_server.Prelude.{
  ℕ, ◌+◌, ◌-◌, ◌≤◌, ◌<◌, ◌≡◌, ◌⊎◌, refl, List, [], ◌∷◌, ◌++◌, arith, tests, ltb, ltb→lt, ltb→le,
  if◌then◌else◌, Bool-cases, inl, inr,
}
use py_qgis_server.Oom.{Child, total, sorted, kill_loop, check_oom_status}
use py_qgis_server.Oom.Order.{Descending, total-sorted, perm-sorted, sorted-Descending}

-- The children that the loop does not reach.
abbrev spared : ℕ → ℕ → List Child → List Child
spared mark used [] = []
spared mark used (c ∷ cs) =
    let later = spared mark (used - c.mem) cs in if ltb (used - c.mem) mark then cs else later

-- Before each kill the memory in use is at least the mark.
abbrev pub Needed : ℕ → List Child → List Child → Type 0
Needed mark [] left = Unit
Needed mark (k ∷ ks) left = (mark ≤ total ((k ∷ ks) ++ left)) × Needed mark ks left

kill_loop-spared :
    (mark used : ℕ) (cs : List Child) → kill_loop mark used cs ++ spared mark used cs ≡ cs
unfolding kill_loop
kill_loop-spared mark used [] = refl
kill_loop-spared mark used (c ∷ cs) = ground (arith, kill_loop-spared mark (used - c.mem) cs)

spared-enough :
    (mark : ℕ) (cs : List Child)
    → (total (spared mark (total cs) cs) < mark) ⊎ (spared mark (total cs) cs ≡ [])
unfolding total
spared-enough mark [] = inr refl
spared-enough mark (c ∷ cs) =
    let e : c.mem + total cs - c.mem ≡ total cs = omega arith in
    rw e (elim (Bool-cases (ltb (total cs) mark)) [
      | inl low ↦ rw low (inl (ltb→lt (total cs) mark low))
      | inr high ↦ rw high (spared-enough mark cs)
    ])

kill_loop-Needed :
    (mark : ℕ) (cs : List Child)
    → mark ≤ total cs
    → Needed mark (kill_loop mark (total cs) cs) (spared mark (total cs) cs)
unfolding total kill_loop
kill_loop-Needed mark [] h = tt
kill_loop-Needed mark (c ∷ cs) h =
    let e : c.mem + total cs - c.mem ≡ total cs = omega arith in
    rw e (elim (Bool-cases (ltb (total cs) mark)) [
      | inl low ↦ rw low (h, tt)
      | inr high ↦ rw high (
        rw (kill_loop-spared mark (total cs) cs) h,
        kill_loop-Needed mark cs (ltb→le (total cs) mark high),
      )
    ])

-- The children that live on.
abbrev pub survivors : ℕ → List Child → List Child
survivors mark childs =
    if ltb mark (total childs) then spared mark (total childs) (sorted childs) else sorted childs

-- The killed and the surviving children make up all of them, in an order in which no one takes more
-- memory than one before; the survivors together are under the mark, or none is left, or nothing had
-- to be done; no child is killed while the memory in use is under the mark.
pub oom_relief :
    (mark : ℕ) (childs : List Child)
    → Perm (check_oom_status mark childs ++ survivors mark childs) childs
      × Descending (check_oom_status mark childs ++ survivors mark childs)
      × ((total (survivors mark childs) < mark)
          ⊎ (survivors mark childs ≡ [])
          ⊎ (check_oom_status mark childs ≡ []) × (total childs ≤ mark))
      × Needed mark (check_oom_status mark childs) (survivors mark childs)
oom_relief mark childs =
    let cs = sorted childs in
    elim (Bool-cases (ltb mark (total childs))) [
      | inl high ↦
          let fewer : check_oom_status mark childs ≡ kill_loop mark (total childs) cs =
            unfold check_oom_status in rw high in
          let all_in_order = kill_loop-spared mark (total childs) cs in
          let used = total-sorted childs in
          rw (fewer, high, all_in_order)
            (
              perm-sorted childs,
              sorted-Descending childs,
              rw (← used) (enough cs),
              rw (← used) (kill_loop-Needed mark cs (omega (tests, high, used))),
            )
      | inr low ↦
          let nobody : check_oom_status mark childs ≡ [] = unfold check_oom_status in rw low in
          rw (nobody, low)
            (
              perm-sorted childs,
              sorted-Descending childs,
              inr (inr (refl, ltb→le mark (total childs) low)),
              tt,
            )
    ]
  where
    enough :
        (cs : List Child)
        → (total (spared mark (total cs) cs) < mark)
          ⊎ (spared mark (total cs) cs ≡ [])
          ⊎ (kill_loop mark (total cs) cs ≡ []) × (total cs ≤ mark)
    enough cs = elim (spared-enough mark cs) [ inl low ↦ inl low | inr gone ↦ inr (inl gone) ]
