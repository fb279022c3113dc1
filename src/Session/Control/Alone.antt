-- ===== src/Session/Control/Alone.antt =====
-- session/control.go: one turn at a time.
use lib_agent_harness.Prelude.{
  ℕ, String, Bool, true, false, none, some, List, [], ◌∷◌, ◌++◌, length, get_elem?, get_elem?-snoc,
  ◌≡◌, refl, sym, ap, subst, ◌∙◌, ◌⊎◌, inl, inr, arith,
}
use lib_agent_harness.Session.Turn.{started}
use lib_agent_harness.Session.Host.World.{World}
use lib_agent_harness.Session.Control.{
  begun, claimed, Held, Control, is_done, turn_at, claim_idle, claim, Event, at_stage, is_claimed,
  act, history, opened,
}
use lib_agent_harness.Session.Control.Progress.{Progress, keeps, authorises, begins, act-Progress}
use lib_agent_harness.Session.Control.Keeping.{ended-Follows, IsSynced, Keeps}

pub record IsAlone (c : Control) : Type 0 where
  pub synced : (i : ℕ) (h : Held) → get_elem? c.turns i ≡ some h → IsSynced h
  pub alone :
      (i : ℕ) (h : Held)
      → get_elem? c.turns i ≡ some h
      → h.turn.finished ≡ false
      → c.active ≡ some i
  pub idle :
      is_claimed c.stage ≡ true
      → (i : ℕ) (h : Held) → get_elem? c.turns i ≡ some h
      → h.turn.finished ≡ true

pub Keeps-IsAlone : (c c' : Control) → Keeps c c' → IsAlone c → IsAlone c'
Keeps-IsAlone c c' k a = record {
  synced = λ i h' e. let (h, at, f) = k.turns i h' e in f.synced (a.synced i h at);
  alone = λ i h' e u. let (h, at, f) = k.turns i h' e in k.active ∙ a.alone i h at (f.unfinished u);
  idle = λ s i h' e.
      let (h, at, f) = k.turns i h' e in ended-Follows h h' f (a.idle (k.stage s) i h at);
}

claim_idle-done : (c : Control) → claim_idle c ≡ none → is_done (turn_at c c.active) ≡ true
unfolding claim_idle
claim_idle-done c e = ground (arith, e)

-- A turn is authorised only while every turn has ended.
some_inj : {h k : Held} → some h ≡ some k → h ≡ k
some_inj q = cc

every_ended :
    (c : Control)
    → claim_idle c ≡ none
    → IsAlone c
    → (i : ℕ) (h : Held) → get_elem? c.turns i ≡ some h
    → h.turn.finished ≡ true
every_ended c idle a i h at = each h.turn.finished refl
  where
    each : (b : Bool) → h.turn.finished ≡ b → h.turn.finished ≡ true
    each true f = f
    each false f = absurd (
        ground (
          arith,
          claim_idle-done c idle,
          ap (turn_at c) (a.alone i h at f) ∙ at,
          a.synced i h at,
          f,
        ))

authorised-IsAlone : (c : Control) → claim c ≡ none → IsAlone c → IsAlone (at_stage c claimed)
unfolding claim
authorised-IsAlone c e a = record {
  synced = a.synced;
  alone = a.alone;
  idle = λ s. every_ended c (ground arith) a;
}

begun-IsAlone :
    (c : Control) (w : World) (id : String) (capacity : ℕ) (tools : Bool)
    → ((i : ℕ) (h : Held) → get_elem? c.turns i ≡ some h → h.turn.finished ≡ true)
    → IsAlone c
    → IsAlone (begun (record c { world = w }) (started id capacity tools))
begun-IsAlone c w id capacity tools idle a = record {
  synced = λ i h at. each_synced i h at (get_elem?-snoc c.turns arriving i);
  alone = λ i h at u. each_alone i h at u (get_elem?-snoc c.turns arriving i);
  idle = λ s. absurd (ground (arith, s));
}
  where
    arriving : Held
    arriving = record { turn = started id capacity tools; interrupt_requested = false }

    After : ℕ → Type 0
    After i =
        (get_elem? (c.turns ++ arriving ∷ []) i ≡ get_elem? c.turns i)
        ⊎ ((get_elem? (c.turns ++ arriving ∷ []) i ≡ some arriving)
            × (i ≡ length c.turns)
            × (get_elem? c.turns i ≡ none))

    each_synced :
        (i : ℕ) (h : Held) → get_elem? (c.turns ++ arriving ∷ []) i ≡ some h → After i → IsSynced h
    each_synced i h at (inl same) = a.synced i h (sym same ∙ at)
    each_synced i h at (inr (new, _, _)) = new_synced (sym new ∙ at)
      where
        new_synced : some arriving ≡ some h → IsSynced h
        new_synced q = subst IsSynced (some_inj q) refl

    each_alone :
        (i : ℕ) (h : Held)
        → get_elem? (c.turns ++ arriving ∷ []) i ≡ some h
        → h.turn.finished ≡ false
        → After i
        → some (length c.turns) ≡ some i
    each_alone i h at u (inl same) = absurd (ground (arith, idle i h (sym same ∙ at), u))
    each_alone i h at u (inr (_, last, _)) = ap some (sym last)

pub Progress-IsAlone : (c c' : Control) → Progress c c' → IsAlone c → IsAlone c'
Progress-IsAlone c c' (keeps k) a = Keeps-IsAlone c c' k a
Progress-IsAlone c c' (authorises e) a = authorised-IsAlone c e a
Progress-IsAlone c c' (begins w id capacity tools (inl here)) a =
    begun-IsAlone c w id capacity tools (a.idle here) a
Progress-IsAlone c c' (begins w id capacity tools (inr idle)) a =
    begun-IsAlone c w id capacity tools (every_ended c idle a) a

pub history-IsAlone : (c : Control) (es : List Event) → IsAlone c → IsAlone (history c es)
unfolding history
history-IsAlone c [] a = a
history-IsAlone c (e ∷ es) a =
    history-IsAlone (act c e) es (Progress-IsAlone c (act c e) (act-Progress c e) a)

pub opened-IsAlone : IsAlone opened
opened-IsAlone = record {
  synced = λ i h at. cc;
  alone = λ i h at. cc;
  idle = λ s. absurd (ground (arith, s));
}

-- Whatever happens to a session, in any order, two of its turns that have not ended are one turn, which
-- is the active one.
pub one_turn :
    (es : List Event) (i j : ℕ) (h k : Held)
    → get_elem? (history opened es).turns i ≡ some h
    → h.turn.finished ≡ false
    → get_elem? (history opened es).turns j ≡ some k
    → k.turn.finished ≡ false
    → (i ≡ j) × ((history opened es).active ≡ some i)
one_turn es i j h k at u at' u' =
    let a = history-IsAlone opened es opened-IsAlone in
    (same (sym (a.alone i h at u) ∙ a.alone j k at' u'), a.alone i h at u)
  where
    same : some i ≡ some j → i ≡ j
    same q = cc
