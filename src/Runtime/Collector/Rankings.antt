-- ===== src/Runtime/Collector/Rankings.antt =====
-- The rankings of the tools list the first ones of all.
use agent_diaries_core.Prelude.{
  ℕ, ◌≤◌, ◌≡◌, sym, ◌∙◌, ap, Bool, true, List, [], ◌∷◌, ◌++◌, arith, take, drop, length, filter,
  subst, take-append-drop, length-take, All,
}
use Prim.Native.Nat.{min}
use agent_diaries_core.Sorting.{
  sort, IsSorted, IsTotal, sort-IsSorted, length-filter-sort, length-sort,
}
use agent_diaries_core.Runtime.Collector.Snapshots.{
  Collector, ToolSnapshot, get_all_tool_snapshots, more_used, slower, get_most_used_tools,
  get_slowest_tools,
}

-- The numbers of the items never rise.
abbrev pub Falls : (ToolSnapshot → ℕ) → List ToolSnapshot → Type 0
Falls f [] = Unit {0}
Falls f (x ∷ xs) = All (λ y. f y ≤ f x) xs × Falls f xs

-- The first `n` of all items by a number, or all of them: with the others, which are not greater,
-- they are the items of `all`, each as often.
pub record Leads (f : ToolSnapshot → ℕ) (n : ℕ) (top all : List ToolSnapshot) : Type 0 where
  pub others : List ToolSnapshot
  pub size : length top ≡ min n (length all)
  pub falling : Falls f (top ++ others)
  pub same_items :
      (p : ToolSnapshot → Bool) → length (filter p (top ++ others)) ≡ length (filter p all)

module _ (f : ToolSnapshot → ℕ) (le : ToolSnapshot → ToolSnapshot → Bool)
    (falls : (a b : ToolSnapshot) → le a b ≡ true → f b ≤ f a) where
  All-below :
      (x y : ToolSnapshot) (zs : List ToolSnapshot)
      → f y ≤ f x
      → All (λ z. f z ≤ f y) zs
      → All (λ z. f z ≤ f x) zs
  All-below x y [] l a = tt
  All-below x y (z ∷ zs) l (h, a) = (omega arith, All-below x y zs l a)

  sorted-Falls : (xs : List ToolSnapshot) → IsSorted le xs → Falls f xs
  sorted-Falls [] s = tt
  sorted-Falls (x ∷ []) s = (tt, tt)
  sorted-Falls (x ∷ y ∷ ys) (h, s) =
      let (a, b) = sorted-Falls (y ∷ ys) s in
      let l = falls x y h in ((l, All-below x y ys l a), (a, b))

  take-Leads : (n : ℕ) (all : List ToolSnapshot) → IsTotal le → Leads f n (take n (sort le all)) all
  take-Leads n all total =
      let e = sym (take-append-drop n (sort le all)) in
      record {
        others = drop n (sort le all);
        size = length-take n (sort le all) ∙ ap (min n) (length-sort le all);
        falling = subst (Falls f) e (sorted-Falls (sort le all) (sort-IsSorted le total all));
        same_items = λ p. ap (λ xs. length (filter p xs)) (sym e) ∙ length-filter-sort le p all;
      }

-- The most used tools are the first `n` of all tools by the number of executions, and the slowest
-- ones by the 95th percentile of their durations, each list in falling order: it has `n` tools, or
-- all if there are fewer, and no tool that is left out has a greater number than one that is
-- listed.
pub rankings-Leads :
    (n : ℕ) (c : Collector)
    → Leads (λ s. s.execution_count) n (get_most_used_tools n c) (get_all_tool_snapshots c)
      × Leads (λ s. s.p95_duration_ms) n (get_slowest_tools n c) (get_all_tool_snapshots c)
unfolding get_most_used_tools get_slowest_tools
rankings-Leads n c = (
  take-Leads (λ s. s.execution_count) more_used (λ a b h. ground arith) n (get_all_tool_snapshots c)
      (λ a b h. ground arith),
  take-Leads (λ s. s.p95_duration_ms) slower (λ a b h. ground arith) n (get_all_tool_snapshots c)
      (λ a b h. ground arith),
)
