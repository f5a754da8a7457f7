-- ===== src/State/Problems.antt =====
-- The problem log: AddProblem and Problems of internal/state/state.go.
use mathlib.Core.List.{reverse-append}
use go_zendure2mqtt.Common.{ℕ, ◌≤◌, List, [], ◌∷◌, ◌++◌, ◌≡◌, sym, ◌∙◌, ap, length, take}
use go_zendure2mqtt.Common.Lists.{reverse-drop, take-cons, take-all, length-take}
use go_zendure2mqtt.State.Store.{
  Store, Problem, stamp, notify, add_problem, problems_of, max_problems,
}

-- the same problems as they were added, the last one first, in front of others
unfoldable pub newest_first : List (ℕ × Problem) → List Problem → List Problem
newest_first [] old = old
newest_first ((now, p) ∷ ps) old = newest_first ps (stamp now p ∷ old)

take-newest_first :
    (ps : List (ℕ × Problem)) (old new : List Problem)
    → take max_problems old ≡ take max_problems new
    → take max_problems (newest_first ps old) ≡ take max_problems (newest_first ps new)
unfolding newest_first
take-newest_first [] old new h = h
take-newest_first ((now, p) ∷ ps) old new h =
    take-newest_first ps (stamp now p ∷ old) (stamp now p ∷ new) (
      sym (take-cons max_problems (stamp now p) old)
      ∙ ap (λ xs. take max_problems (stamp now p ∷ xs)) h
      ∙ take-cons max_problems (stamp now p) new)

module _ {F : Type 0} where
  -- The newest problem comes first, and the log keeps the newest.
  pub problems_of-add_problem :
      (now : ℕ) (p : Problem) (s : Store F)
      → problems_of (add_problem now p s) ≡ take max_problems (stamp now p ∷ problems_of s)
  unfolding problems_of add_problem notify
  problems_of-add_problem now p s =
      reverse-drop max_problems (s.problems ++ stamp now p ∷ [])
      ∙ ap (take max_problems) (reverse-append s.problems (stamp now p ∷ []))

  -- problems that are added one after the other, each at its time
  unfoldable pub add_all : List (ℕ × Problem) → Store F → Store F
  add_all [] s = s
  add_all ((now, p) ∷ ps) s = add_all ps (add_problem now p s)

  -- However many problems are added to a store, its log lists the newest twenty of them and of those
  -- it had, the newest first.
  pub problems_of-add_all :
      (ps : List (ℕ × Problem)) (s : Store F)
      → length (problems_of s) ≤ max_problems
      → problems_of (add_all ps s) ≡ take max_problems (newest_first ps (problems_of s))
  unfolding add_all newest_first
  problems_of-add_all [] s h = sym (take-all max_problems (problems_of s) h)
  problems_of-add_all ((now, p) ∷ ps) s h =
      let all = stamp now p ∷ problems_of s in
      let e : problems_of (add_problem now p s) ≡ take max_problems all =
        problems_of-add_problem now p s in
      problems_of-add_all ps (add_problem now p s) (rw e (length-take max_problems all))
      ∙ take-newest_first ps (problems_of (add_problem now p s)) all (
          ap (take max_problems) e
          ∙ take-all max_problems (take max_problems all) (length-take max_problems all))
