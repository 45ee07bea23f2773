-- ===== src/Detector/Runtime/Maps.antt =====
-- What `Scan` of internal/detector/runtimewatch/runtimewatch.go does to its maps and lists. Maps are walked in the
-- order of their entries.
pub mod Prune
use my_safe.Prelude.{
  ℕ, ◌-◌, ◌+◌, ◌^◌, ◌==◌, Bool, true, false, not, ◌||◌, ◌&&◌, Option, none, some, List, [], ◌∷◌,
  ◌++◌, length, ltb, leb, if◌then◌else◌,
}
use my_safe.Prelude.Text.{Text, codes, text_eq, is_empty, Order, before, same, after, text_compare}
use my_safe.Prelude.Text.Number.{show_nat}
use my_safe.Prelude.Text.Sort.{sort_texts}
use my_safe.Prelude.Dict.{Dict, lookup, insert, erase, is_some}
use my_safe.Domain.{Time, Event, severity_info, severity_medium, severity_high}
use my_safe.Domain.Json.{num, bool, end, field}
use my_safe.Detector.Ssh.{hex}
use my_safe.Detector.Runtime.{
  ProcessEntry, PortEntry, RuntimeState, RuntimeIssue, tcp4, tcp6, runtime_event, process_event,
  process_drift_event, port_event, coverage_evidence,
}
use my_safe.Detector.Runtime.Capture.{Captured}

-- `appendBounded`
unfoldable pub append_bounded : ℕ → List Event → Event → List Event
append_bounded limit events e = if ltb (length events) limit then events ++ e ∷ [] else events

unfoldable pub append_all : ℕ → List Event → List Event → List Event
unfolding append_bounded
append_all limit events [] = events
append_all limit events (e ∷ more) = append_all limit (append_bounded limit events e) more

-- `pruneKnown`: the entries that are not running, the longest unseen first.
abbrev pub Candidate : Type 0
Candidate = Text × ℕ

unfoldable pub unseen_longer : Candidate → Candidate → Bool
unfolding text_compare
unseen_longer (i, m) (j, n) =
    if m == n
    then elim (text_compare i j) [ before ↦ true | same ↦ false | after ↦ false ]
    else ltb m n

unfoldable pub insert_candidate : Candidate → List Candidate → List Candidate
unfolding unseen_longer
insert_candidate c [] = c ∷ []
insert_candidate c (d ∷ ds) =
    let rest = insert_candidate c ds in if unseen_longer d c then d ∷ rest else c ∷ d ∷ ds

unfoldable pub candidates_of : Dict ProcessEntry → Dict ProcessEntry → List Candidate
unfolding insert_candidate lookup
candidates_of current [] = []
candidates_of current ((identity, p) ∷ known) =
    let rest = candidates_of current known in
    if is_some (lookup identity current)
    then rest
    else insert_candidate (identity, p.last_seen) rest

unfoldable pub drop_candidates : ℕ → List Candidate → Dict ProcessEntry → Dict ProcessEntry
unfolding erase
drop_candidates limit [] known = known
drop_candidates limit ((identity, _) ∷ cs) known =
    let dropped = drop_candidates limit cs (erase identity known) in
    if leb (length known) limit then known else dropped

unfoldable pub prune_known : ℕ → Dict ProcessEntry → Dict ProcessEntry → Dict ProcessEntry
unfolding candidates_of drop_candidates
prune_known limit current known =
    if leb (length known) limit
    then known
    else drop_candidates limit (candidates_of current known) known

-- `unionKeys`
unfoldable pub keys_of : {A : Type 0} → Dict A → List Text
keys_of [] = []
keys_of ((k, _) ∷ m) = k ∷ keys_of m

unfoldable pub new_keys : {A : Type 0} → Dict A → Dict A → List Text
unfolding lookup
new_keys left [] = []
new_keys left ((k, _) ∷ right) =
    let rest = new_keys left right in if is_some (lookup k left) then rest else k ∷ rest

unfoldable pub union_keys : {A : Type 0} → Dict A → Dict A → List Text
unfolding keys_of new_keys sort_texts
union_keys left right = sort_texts (keys_of left ++ new_keys left right)

-- The ports of a family that was not read to its end stay as they were.
unfoldable pub keep_family : Bool → Text → Dict PortEntry → Dict PortEntry → Dict PortEntry
unfolding text_eq insert
keep_family complete family [] ports = ports
keep_family complete family ((key, p) ∷ previous) ports =
    let kept = keep_family complete family previous (insert key p ports) in
    let rest = keep_family complete family previous ports in
    if not complete && text_eq p.family family then kept else rest

unfoldable pub next_ports : Dict PortEntry → Captured → Dict PortEntry
unfolding keep_family
next_ports previous c =
    keep_family c.tcp6_complete tcp6 previous (keep_family c.tcp4_complete tcp4 previous c.ports)

abbrev pub name_key : ProcessEntry → Text
name_key p = show_nat p.uid ++ codes ":" ++ p.name

-- The least identity of each name.
unfoldable pub add_name : Text → Text → Dict Text → Dict Text
unfolding lookup insert text_compare
add_name key identity names = elim (lookup key names) [
  | none ↦ insert key identity names
  | some selected ↦ elim (text_compare identity selected) [
    | before ↦ insert key identity names
    | same ↦ names
    | after ↦ names
  ]
]

unfoldable pub current_names : Dict ProcessEntry → Dict Text → Dict Text
unfolding add_name
current_names [] names = names
current_names ((identity, p) ∷ processes) names =
    current_names processes (add_name (name_key p) identity names)

unfoldable pub mark_known : ℕ → Dict ProcessEntry → Dict ProcessEntry → Dict ProcessEntry
unfolding insert
mark_known generation [] known = known
mark_known generation ((identity, p) ∷ processes) known =
    mark_known generation processes (insert identity (record p { last_seen = generation }) known)

-- `sort.Slice` of the issues.
issue_before : RuntimeIssue → RuntimeIssue → Bool
unfolding text_compare text_eq
issue_before i j =
    if text_eq i.area j.area
    then elim (text_compare i.reason j.reason) [ before ↦ true | same ↦ false | after ↦ false ]
    else elim (text_compare i.area j.area) [ before ↦ true | same ↦ false | after ↦ false ]

insert_issue : RuntimeIssue → List RuntimeIssue → List RuntimeIssue
unfolding issue_before
insert_issue i [] = i ∷ []
insert_issue i (j ∷ js) =
    let rest = insert_issue i js in if issue_before j i then j ∷ rest else i ∷ j ∷ js

unfoldable pub sort_issues : List RuntimeIssue → List RuntimeIssue
unfolding insert_issue
sort_issues [] = []
sort_issues (i ∷ is) = insert_issue i (sort_issues is)
