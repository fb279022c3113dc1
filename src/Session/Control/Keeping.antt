-- ===== src/Session/Control/Keeping.antt =====
-- session/control.go: what a step that begins no turn keeps.
use lib_agent_harness.Prelude.{
  ℕ, String, Bool, true, false, not, ◌&&◌, Option, none, some, List, ◌==◌, get_elem?, set,
  get_elem?-set, str_eq, ==_iff, ◌≡◌, refl, sym, ap, subst, ◌∙◌, arith, if◌then◌else◌,
}
use lib_agent_harness.Session.Turn.{finish}
use lib_agent_harness.Session.Control.{
  closed_error, Stage, resting, requesting, cancelling, finishing, Held, Control, Problem,
  with_ended, end_turn, is_other, fail_turn, marked, mark, at_stage, asked, after_end, is_claimed,
}

abbrev pub IsSynced : Held → Type 0
IsSynced h = h.turn.done ≡ h.turn.finished

-- A turn that is later what another was: still in step, and unfinished only if it was.
pub record Follows (h h' : Held) : Type 0 where
  pub synced : IsSynced h → IsSynced h'
  pub unfinished : h'.turn.finished ≡ false → h.turn.finished ≡ false

-- The same turns, some of them ended meanwhile.
abbrev pub Calmer : List Held → List Held → Type 0
Calmer ts ts' =
    (j : ℕ) (h' : Held)
    → get_elem? ts' j ≡ some h'
    → (h : Held) × (get_elem? ts j ≡ some h) × Follows h h'

pub ended-Follows : (h h' : Held) → Follows h h' → h.turn.finished ≡ true → h'.turn.finished ≡ true
ended-Follows h h' f e = each h'.turn.finished refl
  where
    each : (b : Bool) → h'.turn.finished ≡ b → h'.turn.finished ≡ true
    each true p = p
    each false p = absurd (ground (arith, f.unfinished p, e))

Follows-refl : (h : Held) → Follows h h
Follows-refl h = record { synced = λ s. s; unfinished = λ u. u }

pub Calmer-refl : (ts : List Held) → Calmer ts ts
Calmer-refl ts j h e = (h, e, Follows-refl h)

pub Calmer-set :
    (ts : List Held) (i : ℕ) (h h' : Held)
    → get_elem? ts i ≡ some h
    → Follows h h'
    → Calmer ts (set ts i h')
Calmer-set ts i h h' at f j k e = each (i == j) refl (sym (get_elem?-set ts i j h h' at) ∙ e)
  where
    some_eq : some h' ≡ some k → h' ≡ k
    some_eq q = cc

    each :
        (b : Bool)
        → (i == j) ≡ b
        → (if b then some h' else get_elem? ts j) ≡ some k
        → (g : Held) × (get_elem? ts j ≡ some g) × Follows g k
    each true p q =
        (h, ap (get_elem? ts) (sym ((==_iff i j).0 p)) ∙ at, subst (Follows h) (some_eq q) f)
    each false p q = (k, q, Follows-refl k)

-- The end of a turn, and a request to interrupt one, keep the turns.
with_ended-Calmer :
    (c : Control) (i : ℕ) (status err : String) (o : Option Held)
    → get_elem? c.turns i ≡ o
    → Calmer c.turns (with_ended c i status err o).turns
unfolding finish
with_ended-Calmer c i status err none at = Calmer-refl c.turns
with_ended-Calmer c i status err (some h) at =
    Calmer-set c.turns i h (record h { turn = finish h.turn status err }) at
      (record { synced = λ s. ended h.turn.finished refl s; unfinished = λ u. ground (arith, u) })
  where
    ended :
        (b : Bool)
        → h.turn.finished ≡ b
        → IsSynced h
        → (finish h.turn status err).done ≡ (finish h.turn status err).finished
    ended true p s = ground (arith, p, s)
    ended false p s = ground (arith, p)

marked-Calmer :
    (c : Control) (i : ℕ) (b : Bool) (o : Option Held)
    → get_elem? c.turns i ≡ o
    → Calmer c.turns (marked c i b o).turns
marked-Calmer c i b none at = Calmer-refl c.turns
marked-Calmer c i b (some h) at =
    Calmer-set c.turns i h (record h { interrupt_requested = b }) at
      (record { synced = λ s. s; unfinished = λ u. u })

-- A step that starts no turn.
pub record Keeps (c c' : Control) : Type 0 where
  pub active : c'.active ≡ c.active
  pub turns : Calmer c.turns c'.turns
  pub stage : is_claimed c'.stage ≡ true → is_claimed c.stage ≡ true

Calmer-trans : (a b c : List Held) → Calmer a b → Calmer b c → Calmer a c
Calmer-trans a b c p q j k e =
    let (h', at', f') = q j k e in
    let (h, at, f) = p j h' at' in
    (
      h,
      at,
      record {
        synced = λ s. f'.synced (f.synced s);
        unfinished = λ u. f.unfinished (f'.unfinished u);
      },
    )

pub Keeps-trans : (a b c : Control) → Keeps a b → Keeps b c → Keeps a c
Keeps-trans a b c p q = record {
  active = q.active ∙ p.active;
  turns = Calmer-trans a.turns b.turns c.turns p.turns q.turns;
  stage = λ s. p.stage (q.stage s);
}

pub Keeps-refl : (c : Control) → Keeps c c
Keeps-refl c = record { active = refl; turns = Calmer-refl c.turns; stage = λ s. s }

pub at_stage-Keeps : (c : Control) (s : Stage) → is_claimed s ≡ false → Keeps c (at_stage c s)
at_stage-Keeps c s not_claimed = record {
  active = refl;
  turns = Calmer-refl c.turns;
  stage = λ e. absurd (ground (arith, not_claimed, e));
}

pub end_turn-Keeps : (c : Control) (i : ℕ) (status err : String) → Keeps c (end_turn c i status err)
unfolding end_turn
end_turn-Keeps c i status err = each (get_elem? c.turns i) refl
  where
    each : (o : Option Held) → get_elem? c.turns i ≡ o → Keeps c (with_ended c i status err o)
    each none at = Keeps-refl c
    each (some h) at = record {
      active = refl;
      turns = with_ended-Calmer c i status err (some h) at;
      stage = λ s. s;
    }

pub mark-Keeps : (c : Control) (i : ℕ) (b : Bool) → Keeps c (mark c i b)
mark-Keeps c i b = each (get_elem? c.turns i) refl
  where
    each : (o : Option Held) → get_elem? c.turns i ≡ o → Keeps c (marked c i b o)
    each none at = Keeps-refl c
    each (some h) at = record {
      active = refl;
      turns = marked-Calmer c i b (some h) at;
      stage = λ s. s;
    }

pub fail_turn-Keeps :
    (c : Control) (expected : Option ℕ) (err : String) → Keeps c (fail_turn c expected err)
unfolding fail_turn
fail_turn-Keeps c expected err = each (is_other c expected) c.closed
  where
    each :
        (b closed : Bool)
        → Keeps c (
            if b then c else if closed then c else record c {
              closed = true;
              failure =
                  if str_eq c.failure "" && not (str_eq err closed_error) then err else c.failure;
              closing = finishing c.active err;
            })
    each true closed = Keeps-refl c
    each false true = Keeps-refl c
    each false false = record { active = refl; turns = Calmer-refl c.turns; stage = λ s. s }

pub asked-Keeps :
    (c : Control) (steering : Bool) (o : Option ℕ) (p : Option Problem)
    → Keeps c (asked c steering o p)
asked-Keeps c steering (some i) none =
    Keeps-trans c (mark c i true) (at_stage (mark c i true) (requesting i steering))
      (mark-Keeps c i true) (at_stage-Keeps (mark c i true) (requesting i steering) refl)
asked-Keeps c steering (some i) (some p) = Keeps-refl c
asked-Keeps c steering none p = Keeps-refl c

pub after_end-unclaimed :
    (steering : Bool) (o : Option Held) → is_claimed (after_end steering o) ≡ false
after_end-unclaimed steering none = refl
after_end-unclaimed steering (some h) = each (str_eq h.turn.status "interrupted" && steering)
  where
    each : (b : Bool) → is_claimed (if b then cancelling else resting) ≡ false
    each true = refl
    each false = refl

pub Keeps-either :
    (c d e : Control) (b : Bool) → Keeps c d → Keeps c e → Keeps c (if b then d else e)
Keeps-either c d e true p q = p
Keeps-either c d e false p q = q
