-- ===== src/Patch/Replace.antt =====
-- `replace_text` of `infrastructure/workspace/mutator.py`: which part of a text it replaces.
use issue_to_pr_agent.Prelude.{
  ℕ, zero, suc, ◌+◌, ◌≤◌, ◌≡◌, refl, sym, ap, subst, ◌∙◌, String, Bool, false, not, eqb, Option,
  none, some, ok, ok_parts, ok_injective, raise_if, execution_error, format, arith, Bool-cases,
  Option-cases, inl, inr, some_injective, length, codes, is_empty,
}
use Prim.Native.Char.{Char, code}
use Prim.Native.String.{◌++◌}
use text.Mathlib.TextEquality.{Char-path}
use text.Mathlib.TextLemmas.{cons-append, nil-append, append-nil}
use issue_to_pr_agent.Domain.Patches.{PatchOperation, replace_text}
use issue_to_pr_agent.Approval.Decided.{raise_if-passes}
use issue_to_pr_agent.Patch.Mutator.{
  after_prefix, split_first, or_later, count_fuel, occurrences, compute_after_text,
}

after_prefix-append : (part s rest : String) → after_prefix part s ≡ some rest → s ≡ part ++ rest
unfolding after_prefix
after_prefix-append String.[] s rest h = some_injective h ∙ sym (nil-append rest)
after_prefix-append (String.◌∷◌ c part) String.[] rest h = absurd (cc h)
after_prefix-append (String.◌∷◌ c part) (String.◌∷◌ d s) rest h =
    elim (Bool-cases (eqb (code c) (code d))) [
      | inl same ↦
          let equal : c ≡ d = Char-path c d (ground arith) in
          let more : after_prefix part s ≡ some rest = rw same at h in
          rw (equal, after_prefix-append part s rest more, cons-append d part rest)
      | inr other ↦ absurd (cc (rw other at h))
    ]

-- A text is put together from what a split gives.
abbrev Joins : String → String → String × String → Type 0
Joins s part (before, after) = s ≡ before ++ (part ++ after)

or_later-Joins :
    (part : String) (c : Char) (s : String) (found : Option String)
    (later : Option (String × String)) (end : String × String)
    → ((rest : String) → found ≡ some rest → String.◌∷◌ c s ≡ part ++ rest)
    → ((p : String × String) → later ≡ some p → Joins s part p)
    → or_later found c later ≡ some end
    → Joins (String.◌∷◌ c s) part end
or_later-Joins part c s (some rest) later end on_found on_later h =
    subst (Joins (String.◌∷◌ c s) part) (some_injective h)
      (on_found rest refl ∙ sym (nil-append (part ++ rest)))
or_later-Joins part c s none none end on_found on_later h = absurd (cc h)
or_later-Joins part c s none (some (before, after)) end on_found on_later h =
    subst (Joins (String.◌∷◌ c s) part) (some_injective h) (
      ap (λ t. String.◌∷◌ c t) (on_later (before, after) refl)
      ∙ sym (cons-append c before (part ++ after)))

split_first-Joins :
    (part s : String) (end : String × String) → split_first part s ≡ some end → Joins s part end
unfolding split_first
split_first-Joins part String.[] end h = absurd (cc h)
split_first-Joins part (String.◌∷◌ c s) end h =
    or_later-Joins part c s (after_prefix part (String.◌∷◌ c s)) (split_first part s) end
      (λ rest found. after_prefix-append part (String.◌∷◌ c s) rest found)
      (λ p found. split_first-Joins part s p found) h

-- A text that holds the part once, put together from what stands before and after it.
pub record ReplacedOnce (part new before after : String) : Type 0 where
  pub prefix : String
  pub suffix : String
  pub was : before ≡ prefix ++ (part ++ suffix)
  pub becomes : after ≡ prefix ++ (new ++ suffix)
  pub once : occurrences part before ≡ 1
  pub alone : split_first part suffix ≡ none

found_once : (n : ℕ) → not (eqb n 1) ≡ false → n ≡ 1
found_once n h = ground arith

occurs :
    (part s : String)
    → occurrences part s ≡ 1
    → (p : String × String) × (split_first part s ≡ some p)
unfolding occurrences count_fuel
occurs part String.[] h = absurd (omega (arith, h))
occurs part (String.◌∷◌ c s) h = elim (Option-cases (split_first part (String.◌∷◌ c s))) [
  | inl absent ↦ absurd (cc (rw absent at h))
  | inr present ↦ present
]

length-codes : (s t : String) → length (codes (s ++ t)) ≡ length (codes s) + length (codes t)
length-codes String.[] t = rw (nil-append t) (omega arith)
length-codes (String.◌∷◌ c s) t = rw (cons-append c s t) (omega (arith, length-codes s t))

not_empty : (s : String) → is_empty s ≡ false → 1 ≤ length (codes s)
not_empty String.[] h = cc
not_empty (String.◌∷◌ c s) h = omega arith

suffix_shorter :
    (part s : String) (p : String × String)
    → is_empty part ≡ false
    → split_first part s ≡ some p
    → suc (length (codes p.1)) ≤ length (codes s)
suffix_shorter part s p h found =
    rw (split_first-Joins part s p found)
      (omega (arith, length-codes p.0 (part ++ p.1), length-codes part p.1, not_empty part h))

counts_alike :
    (part : String) (n m : ℕ) (s : String)
    → is_empty part ≡ false
    → length (codes s) ≤ n
    → length (codes s) ≤ m
    → count_fuel n part s ≡ count_fuel m part s
unfolding count_fuel split_first
counts_alike part zero zero s h hn hm = refl
counts_alike part zero (suc m) String.[] h hn hm = refl
counts_alike part zero (suc m) (String.◌∷◌ c s) h hn hm = absurd (omega arith)
counts_alike part (suc n) zero String.[] h hn hm = refl
counts_alike part (suc n) zero (String.◌∷◌ c s) h hn hm = absurd (omega arith)
counts_alike part (suc n) (suc m) s h hn hm = elim (Option-cases (split_first part s)) [
  | inl absent ↦ rw absent
  | inr (p, found) ↦
      let shorter = suffix_shorter part s p h found in
      rw found (ap suc (counts_alike part n m p.1 h (omega arith) (omega arith)))
]

-- The fuel of `count` is enough: with any more of it, the number of occurrences of a part that is not
-- empty is the same.
pub count_fuel_enough :
    (part s : String) (fuel : ℕ)
    → is_empty part ≡ false
    → length (codes s) ≤ fuel
    → count_fuel fuel part s ≡ occurrences part s
unfolding occurrences
count_fuel_enough part s fuel h enough =
    counts_alike part fuel (length (codes s)) s h enough (omega arith)

no_occurrence : (part s : String) → occurrences part s ≡ 0 → split_first part s ≡ none
unfolding occurrences count_fuel split_first
no_occurrence part String.[] h = refl
no_occurrence part (String.◌∷◌ c s) h = elim (Option-cases (split_first part (String.◌∷◌ c s))) [
  | inl absent ↦ absent
  | inr (p, found) ↦ absurd (omega (arith, rw found at h))
]

alone_after :
    (part s : String) (p : String × String)
    → is_empty part ≡ false
    → split_first part s ≡ some p
    → occurrences part s ≡ 1
    → split_first part p.1 ≡ none
unfolding occurrences count_fuel
alone_after part String.[] p h found once = absurd (omega (arith, once))
alone_after part (String.◌∷◌ c s) p h found once =
    let shorter = suffix_shorter part (String.◌∷◌ c s) p h found in
    let counted_rest : suc (count_fuel (length (codes s)) part p.1) ≡ 1 = rw found at once in
    no_occurrence part p.1 (
      sym (count_fuel_enough part p.1 (length (codes s)) h (omega arith))
      ∙ omega (arith, counted_rest))

-- A replacement that succeeds finds the text to replace, which is not empty, once and not again after
-- that, and puts the new text in its place, with what stands before and after it unchanged.
pub replace_text-ReplacedOnce :
    (op : PatchOperation) (before : String) (existed : Bool) (end : String × String)
    → is_empty op.find_text ≡ false
    → compute_after_text op replace_text before existed ≡ ok end
    → ReplacedOnce op.find_text op.replace_text before end.0
unfolding compute_after_text format
replace_text-ReplacedOnce op before existed end given h =
    let found = occurrences op.find_text before in
    let (_, _, h1) = ok_parts (raise_if (eqb found 0) execution_error _) _ h in
    let (_, single, h2) = ok_parts (raise_if (not (eqb found 1)) execution_error _) _ h1 in
    let once = found_once found (raise_if-passes _ execution_error _ single) in
    let (p, split) = occurs op.find_text before once in
    subst (λ q. ReplacedOnce op.find_text op.replace_text before q.0) (ok_injective h2)
      (record {
        prefix = p.0;
        suffix = p.1;
        was = split_first-Joins op.find_text before p split;
        becomes = rw (split, append-nil p.1) refl;
        once = once;
        alone = alone_after op.find_text before p given split once;
      })
