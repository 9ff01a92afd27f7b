-- ===== src/Speed/All.antt =====
-- `test_all_configs` of eovpn/speed_test.py. The order in which the pool completes the tests is a
-- parameter, with what each test gives, `none` where it raises.
use e_ovpn_pro.Base.{
  ℕ, min, max, Bool, true, false, ◌||◌, Option, none, some, List, [], ◌∷◌, map, Text, codes, same,
  ends_with, any, lookup, insert, lookup-insert, take, is_some, if◌then◌else◌, ◌≡◌, refl, ap, ◌∙◌,
  arith,
}

abbrev pub max_workers_limit : ℕ
max_workers_limit = 16

-- `[f for f in file_list if f and f.endswith(".ovpn")]`
unfoldable pub valid_files : List Text → List Text
valid_files [] = []
valid_files (f ∷ files) =
    let rest = valid_files files in if ends_with f (codes ".ovpn") then f ∷ rest else rest

-- `max(1, min(int(max_workers), MAX_WORKERS))`
unfoldable pub worker_count : ℕ → ℕ
worker_count max_workers = max 1 (min max_workers max_workers_limit)

abbrev pub Completion : Type 0
Completion = Text × Option (Option ℕ)

abbrev pub result_or : Option (Option ℕ) → Option ℕ
result_or none = none
result_or (some rtt) = rtt

-- the loop over `as_completed`, up to the round that finds the event set
unfoldable pub collect_results : List Completion → List (Text × Option ℕ) → List (Text × Option ℕ)
collect_results [] results = results
collect_results ((file, result) ∷ more) results =
    collect_results more (insert file (result_or result) results)

abbrev pub rounds : Option ℕ → List Completion → List Completion
rounds none completions = completions
rounds (some n) completions = take n completions

abbrev pub completed : Bool → List Text → List Completion → List (Text × Option ℕ)
completed true files completions = []
completed false [] completions = []
completed false (f ∷ files) completions = collect_results completions []

-- `test_all_configs`: whether the event is set at the start, and after how many rounds it is
unfoldable pub test_all_configs :
    Bool → Option ℕ → (List Text → List Completion) → List Text → List (Text × Option ℕ)
unfolding valid_files collect_results
test_all_configs cancelled_before cancelled_after pool file_list =
    completed cancelled_before (valid_files file_list)
      (rounds cancelled_after (pool (valid_files file_list)))

is_some-collect :
    (x : Text) (cs : List Completion) (d : List (Text × Option ℕ))
    → is_some (lookup x (collect_results cs d)) ≡ any (λ c. same c.0 x) cs || is_some (lookup x d)
unfolding collect_results
is_some-collect x [] d = refl
is_some-collect x ((file, result) ∷ more) d =
    is_some-collect x more (insert file (result_or result) d)
    ∙ ap (λ o. any (λ c. same c.0 x) more || is_some o) (lookup-insert file x (result_or result) d)
    ∙ ground arith

any-names :
    (x : Text) (cs : List Completion)
    → any (λ c. same c.0 x) cs ≡ any (λ f. same f x) (map (λ c. c.0) cs)
any-names x [] = refl
any-names x (c ∷ cs) = ap (λ b. same c.0 x || b) (any-names x cs)

-- A test that is not cancelled has an entry for exactly the configurations that it was given, whatever
-- the order in which the pool completes them and whichever of them fail; the pool is one that
-- completes each of them.
pub test_all_configs_complete :
    (pool : List Text → List Completion) (file_list : List Text) (x : Text)
    → ((files : List Text) (x : Text)
        → any (λ f. same f x) (map (λ c. c.0) (pool files)) ≡ any (λ f. same f x) files)
    → is_some (lookup x (test_all_configs false none pool file_list))
      ≡ any (λ f. same f x) (valid_files file_list)
unfolding test_all_configs lookup
test_all_configs_complete pool file_list x h =
    all_of (valid_files file_list) (pool (valid_files file_list))
      (any-names x (pool (valid_files file_list)) ∙ h (valid_files file_list) x)
  where
    all_of :
        (files : List Text) (cs : List Completion)
        → any (λ c. same c.0 x) cs ≡ any (λ f. same f x) files
        → is_some (lookup x (completed false files cs)) ≡ any (λ f. same f x) files
    all_of [] cs e = refl
    all_of (f ∷ files) cs e = is_some-collect x cs [] ∙ ground arith
