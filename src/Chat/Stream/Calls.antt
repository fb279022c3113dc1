-- ===== src/Chat/Stream/Calls.antt =====
-- completion/openai_stream.go: the calls that fragments make.
use lib_agent_harness.Prelude.{
  ℕ, suc, Bool, true, false, Option, none, some, List, [], ◌∷◌, ◌++◌, ◌==◌, length, All,
  if◌then◌else◌, ◌≡◌, refl, sym, ap, ◌∙◌, arith,
}
use mathlib.Core.List.{append_assoc, append-nil}
use lib_agent_harness.Text.{Text}
use lib_agent_harness.Chat.Stream.{
  Fragment, StreamedCall, or_else, extended, merged, merged_at, place, add_call, add_calls, if_fine,
}
use lib_agent_harness.Chat.Stream.Merging.{
  call_at, larger, call_at-extended, length-extended, length-merged_at, call_at-merged_at,
}

-- A fragment that has an index below the bound.
abbrev pub IsPlaced : Fragment → Type 0
IsPlaced f = (i : ℕ) × (place f.index ≡ some i)

abbrev pub is_at : ℕ → Option ℕ → Bool
is_at j none = false
is_at j (some i) = i == j

abbrev pub keep_if {ℓ} : {A : Type ℓ} → Bool → A → List A → List A
keep_if true x xs = x ∷ xs
keep_if false x xs = xs

-- the fragments of one call, in order
unfoldable pub fragments_at : ℕ → List Fragment → List Fragment
fragments_at j [] = []
fragments_at j (f ∷ fs) = keep_if (is_at j (place f.index)) f (fragments_at j fs)

-- a part of the fragments, joined
unfoldable pub joined : (Fragment → Text) → List Fragment → Text
joined part [] = []
joined part (f ∷ fs) = part f ++ joined part fs

unfoldable pub last_extra : List Fragment → Option Text
last_extra [] = none
last_extra (f ∷ fs) = or_else (last_extra fs) f.extra

-- a call followed by these fragments of it
abbrev pub grown : StreamedCall → List Fragment → StreamedCall
grown call fs = record {
  id = call.id ++ joined (λ f. f.id) fs;
  kind = call.kind ++ joined (λ f. f.kind) fs;
  name = call.name ++ joined (λ f. f.name) fs;
  arguments = call.arguments ++ joined (λ f. f.arguments) fs;
  extra = or_else (last_extra fs) call.extra;
}

abbrev pub reached : ℕ → Option ℕ → ℕ
reached n none = n
reached n (some i) = larger n (suc i)

-- how many calls there are after the fragments: one more than the largest index
unfoldable pub span : ℕ → List Fragment → ℕ
span n [] = n
span n (f ∷ fs) = span (reached n (place f.index)) fs

pub record Added (calls : List StreamedCall) (fs : List Fragment) (calls' : List StreamedCall)
    : Type 0 where
  pub each : (j : ℕ) → call_at calls' j ≡ grown (call_at calls j) (fragments_at j fs)
  pub size : length calls' ≡ span (length calls) fs

grown-none : (call : StreamedCall) → grown call [] ≡ call
unfolding joined last_extra
grown-none call =
    rw (append-nil call.id, append-nil call.kind, append-nil call.name, append-nil call.arguments)
      refl

or_else_assoc : (a b c : Option Text) → or_else (or_else a b) c ≡ or_else a (or_else b c)
or_else_assoc none b c = refl
or_else_assoc (some a) b c = refl

grown-merged :
    (call : StreamedCall) (f : Fragment) (fs : List Fragment)
    → grown (merged call f) fs ≡ grown call (f ∷ fs)
unfolding joined last_extra
grown-merged call f fs =
    rw
      (
        append_assoc call.id f.id (joined (λ g. g.id) fs),
        append_assoc call.kind f.kind (joined (λ g. g.kind) fs),
        append_assoc call.name f.name (joined (λ g. g.name) fs),
        append_assoc call.arguments f.arguments (joined (λ g. g.arguments) fs),
        or_else_assoc (last_extra fs) f.extra call.extra,
      )
      refl

grown-kept :
    (b : Bool) (call : StreamedCall) (f : Fragment) (fs : List Fragment)
    → grown (if b then merged call f else call) fs ≡ grown call (keep_if b f fs)
grown-kept true call f fs = grown-merged call f fs
grown-kept false call f fs = refl

add_call-placed :
    (calls : List StreamedCall) (f : Fragment) (i : ℕ)
    → place f.index ≡ some i
    → add_call calls f ≡ (merged_at (extended (suc i) calls) i f, none)
unfolding add_call
add_call-placed calls f i h = rw h refl

Added-merged :
    (calls : List StreamedCall) (f : Fragment) (i : ℕ) (fs : List Fragment)
    (calls' : List StreamedCall)
    → place f.index ≡ some i
    → Added (merged_at (extended (suc i) calls) i f) fs calls'
    → Added calls (f ∷ fs) calls'
unfolding fragments_at span
Added-merged calls f i fs calls' h a = record { each = each; size = size }
  where
    next : List StreamedCall
    next = merged_at (extended (suc i) calls) i f

    long : length (extended (suc i) calls) ≡ larger (length calls) (suc i)
    long = length-extended (suc i) calls

    at_next :
        (j : ℕ) → call_at next j ≡ (if i == j then merged (call_at calls j) f else call_at calls j)
    at_next j =
        call_at-merged_at (extended (suc i) calls) i f j (ground (arith, long))
        ∙ ap (λ c. if i == j then merged c f else c) (call_at-extended (suc i) calls j)

    each : (j : ℕ) → call_at calls' j ≡ grown (call_at calls j) (fragments_at j (f ∷ fs))
    each j =
        a.each j
        ∙ ap (λ c. grown c (fragments_at j fs)) (at_next j)
        ∙ grown-kept (i == j) (call_at calls j) f (fragments_at j fs)
        ∙ ap (λ p. grown (call_at calls j) (keep_if (is_at j p) f (fragments_at j fs))) (sym h)

    size : length calls' ≡ span (length calls) (f ∷ fs)
    size =
        a.size
        ∙ ap (λ n. span n fs) (length-merged_at (extended (suc i) calls) i f ∙ long)
        ∙ ap (λ p. span (reached (length calls) p) fs) (sym h)

joined-append :
    (part : Fragment → Text) (fs gs : List Fragment)
    → joined part (fs ++ gs) ≡ joined part fs ++ joined part gs
unfolding joined
joined-append part [] gs = refl
joined-append part (f ∷ fs) gs =
    ap (λ t. part f ++ t) (joined-append part fs gs)
    ∙ sym (append_assoc (part f) (joined part fs) (joined part gs))

last_extra-append :
    (fs gs : List Fragment) → last_extra (fs ++ gs) ≡ or_else (last_extra gs) (last_extra fs)
unfolding last_extra
last_extra-append [] gs = no_more (last_extra gs)
  where
    no_more : (e : Option Text) → e ≡ or_else e none
    no_more none = refl
    no_more (some t) = refl
last_extra-append (f ∷ fs) gs =
    ap (λ e. or_else e f.extra) (last_extra-append fs gs)
    ∙ or_else_assoc (last_extra gs) (last_extra fs) f.extra

grown-append :
    (call : StreamedCall) (fs gs : List Fragment) → grown (grown call fs) gs ≡ grown call (fs ++ gs)
grown-append call fs gs =
    rw
      (
        joined-append (λ f. f.id) fs gs,
        joined-append (λ f. f.kind) fs gs,
        joined-append (λ f. f.name) fs gs,
        joined-append (λ f. f.arguments) fs gs,
        last_extra-append fs gs,
        append_assoc call.id (joined (λ f. f.id) fs) (joined (λ f. f.id) gs),
        append_assoc call.kind (joined (λ f. f.kind) fs) (joined (λ f. f.kind) gs),
        append_assoc call.name (joined (λ f. f.name) fs) (joined (λ f. f.name) gs),
        append_assoc call.arguments (joined (λ f. f.arguments) fs) (joined (λ f. f.arguments) gs),
        or_else_assoc (last_extra gs) (last_extra fs) call.extra,
      )
      refl

fragments_at-append :
    (j : ℕ) (fs gs : List Fragment)
    → fragments_at j (fs ++ gs) ≡ fragments_at j fs ++ fragments_at j gs
unfolding fragments_at
fragments_at-append j [] gs = refl
fragments_at-append j (f ∷ fs) gs = each (is_at j (place f.index)) (fragments_at-append j fs gs)
  where
    each :
        (b : Bool)
        → fragments_at j (fs ++ gs) ≡ fragments_at j fs ++ fragments_at j gs
        → keep_if b f (fragments_at j (fs ++ gs))
          ≡ keep_if b f (fragments_at j fs) ++ fragments_at j gs
    each true h = ap (λ t. f ∷ t) h
    each false h = h

span-append : (n : ℕ) (fs gs : List Fragment) → span n (fs ++ gs) ≡ span (span n fs) gs
unfolding span
span-append n [] gs = refl
span-append n (f ∷ fs) gs = span-append (reached n (place f.index)) fs gs

pub Added-append :
    (a b c : List StreamedCall) (fs gs : List Fragment)
    → Added a fs b
    → Added b gs c
    → Added a (fs ++ gs) c
Added-append a b c fs gs p q = record {
  each = λ j.
      q.each j
      ∙ ap (λ t. grown t (fragments_at j gs)) (p.each j)
      ∙ grown-append (call_at a j) (fragments_at j fs) (fragments_at j gs)
      ∙ ap (grown (call_at a j)) (sym (fragments_at-append j fs gs));
  size = q.size ∙ ap (λ n. span n gs) p.size ∙ sym (span-append (length a) fs gs);
}

pub Added-none : (calls : List StreamedCall) → Added calls [] calls
unfolding fragments_at span
Added-none calls = record { each = λ j. sym (grown-none (call_at calls j)); size = refl }

pub add_calls-Added :
    (calls : List StreamedCall) (fs : List Fragment)
    → All IsPlaced fs
    → (calls' : List StreamedCall) × (add_calls calls fs ≡ (calls', none)) × Added calls fs calls'
unfolding add_calls
add_calls-Added calls [] p = (calls, refl, Added-none calls)
add_calls-Added calls (f ∷ fs) ((i, h), p) =
    let (calls', ok, a) = add_calls-Added (merged_at (extended (suc i) calls) i f) fs p in
    (
      calls',
      ap (λ r. if_fine r (λ c. add_calls c fs)) (add_call-placed calls f i h) ∙ ok,
      Added-merged calls f i fs calls' h a,
    )
