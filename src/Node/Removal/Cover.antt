-- ===== src/Node/Removal/Cover.antt =====
-- `minimumPolicyCover` and `greedyPolicyCover` of internal/node/removal.go: the smallest set of policies
-- that writes to every missing repository.
--
-- A Go map that the code ranges over is the list of its keys. The map `covered` of the search counts, for
-- a repository, the selected candidates that hold it; here it is read off the selected indices, and so is
-- `chosen`. Backtracking restores both, so a branch starts from the selection that it was given.
pub mod Candidates
pub mod Gain
pub mod Greedy
pub mod Options
pub mod Search
pub mod Minimum
use cprestic.Common.{
  ℕ, zero, suc, ◌+◌, Bool, true, false, not, ◌&&◌, List, [], ◌∷◌, ◌++◌, map, Option, none, some,
  ltb, leb, ◌==◌, if◌then◌else◌, length, filter, any, count,
}
use cprestic.Node.{Policy}

-- `policyCover`.
pub record PolicyCover : Type 0 where
  pub policy : Policy
  pub repositories : List ℕ

-- `contains`.
abbrev pub contains : List ℕ → ℕ → Bool
contains values wanted = any (λ v. v == wanted) values

-- The inner loop over one policy's repositories: those that are wanted, each once, in their order. `seen`
-- has the same elements as the list built so far.
unfoldable pub wanted_of : List ℕ → List ℕ → List ℕ → List ℕ
wanted_of wanted seen [] = []
wanted_of wanted seen (r ∷ rs) =
    let taken = r ∷ wanted_of wanted (r ∷ seen) rs in
    let skipped = wanted_of wanted seen rs in
    if contains wanted r && not (contains seen r) then taken else skipped

unfoldable pub candidates_of : List ℕ → List Policy → List PolicyCover
unfolding wanted_of
candidates_of wanted [] = []
candidates_of wanted (p ∷ ps) =
    let rs = wanted_of wanted [] p.repository_ids in
    let rest = candidates_of wanted ps in
    if length rs == 0 then rest else record { policy = p; repositories = rs } ∷ rest

-- Greedy. `left` are the wanted repositories that `covered` does not hold yet.
abbrev pub added : List ℕ → PolicyCover → ℕ
added left c = count (contains left) c.repositories

-- The loop that looks for the unused candidate that adds most; the first of equals.
unfoldable pub best_gain :
    List ℕ → List ℕ → ℕ → List PolicyCover → Option (ℕ × PolicyCover) → ℕ → Option (ℕ × PolicyCover)
best_gain left used index [] best gain = best
best_gain left used index (c ∷ cs) best gain =
    let better = best_gain left used (suc index) cs (some (index, c)) (added left c) in
    let same = best_gain left used (suc index) cs best gain in
    if not (contains used index) && ltb gain (added left c) then better else same

-- `greedyPolicyCover`; nil is the empty list. A round covers at least one repository more, so the
-- number of wanted repositories, plus one, is fuel enough.
unfoldable pub greedy_from : ℕ → List ℕ → List ℕ → List PolicyCover → Option (List Policy)
unfolding best_gain
greedy_from fuel [] used cs = some []
greedy_from zero (l ∷ ls) used cs = none
greedy_from (suc fuel) (l ∷ ls) used cs = elim (best_gain (l ∷ ls) used 0 cs none 0) [
  | none ↦ none
  | some (index, c) ↦
      elim (greedy_from fuel (filter (λ r. not (contains c.repositories r)) (l ∷ ls)) (index ∷ used)
        cs) [ none ↦ none | some rest ↦ some (c.policy ∷ rest) ]
]

abbrev pub or_nil : Option (List Policy) → List Policy
or_nil none = []
or_nil (some ps) = ps

unfoldable pub greedy_policy_cover : List ℕ → List PolicyCover → List Policy
unfolding greedy_from
greedy_policy_cover wanted cs = or_nil (greedy_from (suc (length wanted)) wanted [] cs)

-- The search. Whether the candidate at an index, or one of those at a list of indices, holds a repository.
unfoldable pub candidate_at : List PolicyCover → ℕ → Option PolicyCover
candidate_at [] i = none
candidate_at (c ∷ cs) zero = some c
candidate_at (c ∷ cs) (suc i) = candidate_at cs i

abbrev pub holds_at : List PolicyCover → ℕ → ℕ → Bool
holds_at cs r i = elim (candidate_at cs i) [ none ↦ false | some c ↦ contains c.repositories r ]

abbrev pub is_covered : List PolicyCover → List ℕ → ℕ → Bool
is_covered cs selected r = any (holds_at cs r) selected

abbrev pub all_covered : List PolicyCover → List ℕ → List ℕ → Bool
all_covered cs selected wanted = not (any (λ r. not (is_covered cs selected r)) wanted)

-- `available`: the indices of the candidates from `index` on that are not chosen and hold `r`.
unfoldable pub available : ℕ → List PolicyCover → List ℕ → ℕ → List ℕ
available index [] selected r = []
available index (c ∷ cs) selected r =
    let rest = available (suc index) cs selected r in
    if not (contains selected index) && contains c.repositories r then index ∷ rest else rest

abbrev pub fewer : List ℕ → Option (List ℕ) → Option (List ℕ)
fewer options none = some options
fewer options (some least) =
    if ltb (length options) (length least) then some options else some least

-- The repository to branch on gives the options: of the uncovered ones the first with the fewest; none
-- where one has no option at all.
unfoldable pub fewest : List PolicyCover → List ℕ → List ℕ → Option (List ℕ) → Option (List ℕ)
unfolding available
fewest cs selected [] best = best
fewest cs selected (r ∷ rs) best =
    if is_covered cs selected r
    then fewest cs selected rs best
    else (let options = available 0 cs selected r in
        let rest = fewest cs selected rs (fewer options best) in
        if length options == 0 then none else rest)

unfoldable pub policies_at : List PolicyCover → List ℕ → List Policy
unfolding candidate_at
policies_at cs [] = []
policies_at cs (i ∷ is) = elim (candidate_at cs i) [
  | none ↦ policies_at cs is
  | some c ↦ c.policy ∷ policies_at cs is
]

-- A loop over the options that hands the best cover on.
unfoldable pub try_each : (ℕ → List Policy → List Policy) → List ℕ → List Policy → List Policy
try_each branch [] best = best
try_each branch (i ∷ is) best = try_each branch is (branch i best)

-- `search`: the best cover, given the one known so far and the selection. Each level selects one more, and
-- a selection as long as the best cover is not extended, so its length is fuel enough.
unfoldable pub search_from : ℕ → List PolicyCover → List ℕ → List ℕ → List Policy → List Policy
unfolding fewest policies_at try_each
search_from zero cs wanted selected best = best
search_from (suc fuel) cs wanted selected best =
    let branch = λ (i : ℕ) (b : List Policy). search_from fuel cs wanted (selected ++ i ∷ []) b in
    if all_covered cs selected wanted
    then (if ltb (length selected) (length best) then policies_at cs selected else best)
    else if leb (length best) (length selected + 1)
    then best
    else elim (fewest cs selected wanted none) [
      | none ↦ best
      | some options ↦ try_each branch options best
    ]

-- `minimumPolicyCover`. The missing repositories are named once each (`accountRemovalSafety`).
unfoldable pub minimum_policy_cover : List ℕ → List Policy → List Policy
unfolding candidates_of greedy_policy_cover search_from
minimum_policy_cover missing policies =
    let cs = candidates_of missing policies in
    let best = greedy_policy_cover missing cs in
    if length best == 0 then [] else search_from (length best) cs missing [] best
