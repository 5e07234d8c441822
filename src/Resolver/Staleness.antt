-- ===== src/Resolver/Staleness.antt =====
-- How long an answer may differ from the API's: `resolve_link` over sequences of requests.
use mathlib.Core.Path.{subst}
use build_affiliate.Common.{
  ℕ, ◌+◌, ◌≤◌, ◌≡◌, refl, Bool, true, false, Option, none, some, List, [], ◌∷◌, ◌⊎◌, All,
  if◌then◌else◌, arith, inl, inr, sym,
}
use build_affiliate.Resolver.{
  Entry, negative, positive, corrupt, Cell, Fetched, link, no_such_link, unreachable,
  positive_ttl_seconds, negative_ttl_seconds, Visit, read_cell, cache_answer, resolve_link,
  resolve_entry,
}

unfoldable pub run_visits : List Visit → Option Cell → Option Cell
run_visits [] cell = cell
run_visits (v ∷ vs) cell = run_visits vs (resolve_link v cell).0

-- Where the API answers, it says that the short code has this link, or none.
abbrev pub Answers : Option ℕ → Fetched → Type 0
Answers truth (link l) = truth ≡ some l
Answers truth no_such_link = truth ≡ none
Answers truth unreachable = Unit

abbrev pub RunsOutBy : ℕ → Option Cell → Type 0
RunsOutBy bound none = Unit
RunsOutBy bound (some c) = c.expires_at ≤ bound

abbrev Says : Option ℕ → Entry → Type 0
Says truth negative = truth ≡ none
Says truth (positive l) = truth ≡ some l
Says truth corrupt = Unit

abbrev IsFresh : Option ℕ → ℕ → Option Cell → Type 0
IsFresh truth bound none = Unit
IsFresh truth bound (some c) = Says truth c.entry ⊎ (c.expires_at ≤ bound)

either :
    (P : Option Cell → Type 0) (b : Bool) (x y : Option Cell) → P x → P y → P (if b then x else y)
either P true x y px py = px
either P false x y px py = py

-- A request leaves the cell that it found, or writes what the API answered.
cached-keeps :
    (P : Option Cell → Type 0) (v : Visit) (api : Fetched) (cell : Option Cell)
    → P cell
    → ((e : Entry) (ttl : ℕ)
        → ttl ≤ positive_ttl_seconds
        → ((truth : Option ℕ) → Answers truth api → Says truth e)
        → P (some (record { entry = e; expires_at = v.now + ttl })))
    → P (cache_answer v api cell).0
cached-keeps P v unreachable cell kept wrote = kept
cached-keeps P v no_such_link cell kept wrote =
    either P v.can_write _ cell (wrote negative negative_ttl_seconds (omega arith) (λ truth h. h))
      kept
cached-keeps P v (link l) cell kept wrote =
    either P v.can_write _ cell
      (wrote (positive l) positive_ttl_seconds (omega arith) (λ truth h. h)) kept

answered-keeps :
    (P : Option Cell → Type 0) (v : Visit) (cached : Option Entry) (cell : Option Cell)
    → P cell
    → ((e : Entry) (ttl : ℕ)
        → ttl ≤ positive_ttl_seconds
        → ((truth : Option ℕ) → Answers truth v.api → Says truth e)
        → P (some (record { entry = e; expires_at = v.now + ttl })))
    → P (resolve_entry v cached cell).0
answered-keeps P v none cell kept wrote = cached-keeps P v v.api cell kept wrote
answered-keeps P v (some negative) cell kept wrote = kept
answered-keeps P v (some (positive l)) cell kept wrote = kept
answered-keeps P v (some corrupt) cell kept wrote = cached-keeps P v v.api cell kept wrote

run-RunsOutBy :
    (since : ℕ) (vs : List Visit) (cell : Option Cell)
    → All (λ v. v.now ≤ since) vs
    → RunsOutBy (since + positive_ttl_seconds) cell
    → RunsOutBy (since + positive_ttl_seconds) (run_visits vs cell)
unfolding run_visits resolve_link
run-RunsOutBy since [] cell past h = h
run-RunsOutBy since (v ∷ vs) cell past h = run-RunsOutBy since vs (resolve_link v cell).0 past.1 (
    answered-keeps (RunsOutBy (since + positive_ttl_seconds)) v (read_cell v cell) cell h
      (λ e ttl short says. omega (arith, short, past.0)))

run-IsFresh :
    (truth : Option ℕ) (bound : ℕ) (vs : List Visit) (cell : Option Cell)
    → All (λ v. Answers truth v.api) vs
    → IsFresh truth bound cell
    → IsFresh truth bound (run_visits vs cell)
unfolding run_visits resolve_link
run-IsFresh truth bound [] cell true_ h = h
run-IsFresh truth bound (v ∷ vs) cell true_ h =
    run-IsFresh truth bound vs (resolve_link v cell).0 true_.1 (
      answered-keeps (IsFresh truth bound) v (read_cell v cell) cell h
        (λ e ttl short says. inl (says truth true_.0)))

out-IsFresh :
    (truth : Option ℕ) (bound : ℕ) (cell : Option Cell)
    → RunsOutBy bound cell
    → IsFresh truth bound cell
out-IsFresh truth bound none h = tt
out-IsFresh truth bound (some c) h = inr h

cached-right :
    (truth : Option ℕ) (v : Visit) (api : Fetched) (cell : Option Cell)
    → Answers truth api
    → ((cache_answer v api cell).1 ≡ truth) ⊎ (api ≡ unreachable)
cached-right truth v unreachable cell says = inr refl
cached-right truth v no_such_link cell says = inl (sym says)
cached-right truth v (link l) cell says = inl (sym says)

-- What is read of a fresh cell is right, once the bound is past.
read-right :
    (truth : Option ℕ) (bound : ℕ) (v : Visit) (cell : Option Cell) (e : Entry)
    → bound ≤ v.now
    → IsFresh truth bound cell
    → read_cell v cell ≡ some e
    → Says truth e
read-right truth bound v none e late fresh found = absurd cc
read-right truth bound v (some c) e late (inl says) found =
    let same : c.entry ≡ e = ground arith in subst (Says truth) same says
read-right truth bound v (some c) e late (inr out) found = absurd (ground arith)

answered-right :
    (truth : Option ℕ) (v : Visit) (cached : Option Entry) (cell : Option Cell)
    → Answers truth v.api
    → ((e : Entry) → cached ≡ some e → Says truth e)
    → ((resolve_entry v cached cell).1 ≡ truth) ⊎ (v.api ≡ unreachable)
answered-right truth v none cell says right = cached-right truth v v.api cell says
answered-right truth v (some negative) cell says right = inl (sym (right negative refl))
answered-right truth v (some (positive l)) cell says right = inl (sym (right (positive l) refl))
answered-right truth v (some corrupt) cell says right = cached-right truth v v.api cell says

-- A link is created, changed or removed, and no one tells the cache. From a day later on, a request
-- is answered by what the API says, unless it needs the API and that cannot be reached.
pub stale_for_a_day :
    (truth : Option ℕ) (since : ℕ) (before after : List Visit) (v : Visit)
    → All (λ u. u.now ≤ since) before
    → All (λ u. Answers truth u.api) after
    → Answers truth v.api
    → since + positive_ttl_seconds ≤ v.now
    → ((resolve_link v (run_visits after (run_visits before none))).1 ≡ truth)
      ⊎ (v.api ≡ unreachable)
unfolding resolve_link
stale_for_a_day truth since before after v past true_ says late =
    let old = run-RunsOutBy since before none past tt in
    answered-right truth v _ _ says (λ e.
      read-right truth _ v _ e late (run-IsFresh truth _ after _ true_ (out-IsFresh truth _ _ old)))
