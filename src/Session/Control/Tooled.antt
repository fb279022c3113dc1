-- ===== src/Session/Control/Tooled.antt =====
-- session/control.go: the turns that authorise tool work.
use lib_agent_harness.Prelude.{
  ◌++◌, get_elem?-snoc, ℕ, zero, suc, Bool, true, false, none, some, List, [], ◌∷◌, length,
  get_elem?, set, get_elem?-set, All, ==_iff, ◌==◌, ◌≡◌, refl, sym, ap, subst, ◌∙◌, ◌⊎◌, inl, inr,
  arith, if◌then◌else◌,
}
use lib_agent_harness.Session.Control.{Held, Control}

-- It reopened the tool channel.
abbrev pub IsTooled : Held → Type 0
IsTooled h = h.turn.closes_tools ≡ true

abbrev pub IsUntooled : Held → Type 0
IsUntooled h = h.turn.closes_tools ≡ false

-- one of the turns reopened the channel and has not ended
abbrev pub IsUnder : List Held → Type 0
IsUnder ts =
    (i : ℕ) × (h : Held) × (get_elem? ts i ≡ some h) × IsTooled h × (h.turn.finished ≡ false)

-- No turn reopened the channel, one that did is under way, or the channel is paused.
abbrev pub IsShut : Control → Type 0
IsShut c = All IsUntooled c.turns ⊎ (IsUnder c.turns ⊎ (c.world.host.paused ≡ true))

All-set :
    (ts : List Held) (i : ℕ) (h h' : Held)
    → get_elem? ts i ≡ some h
    → (IsUntooled h → IsUntooled h')
    → All IsUntooled ts
    → All IsUntooled (set ts i h')
All-set [] i h h' at f a = a
All-set (t ∷ ts) zero h h' at f (p, ps) = (f (subst IsUntooled (some_inj at) p), ps)
  where
    some_inj : some t ≡ some h → t ≡ h
    some_inj q = cc
All-set (t ∷ ts) (suc i) h h' at f (p, ps) = (p, All-set ts i h h' at f ps)

IsUnder-set :
    (ts : List Held) (i : ℕ) (h h' : Held)
    → get_elem? ts i ≡ some h
    → (IsTooled h → IsTooled h')
    → (h.turn.finished ≡ false → h'.turn.finished ≡ false)
    → IsUnder ts
    → IsUnder (set ts i h')
IsUnder-set ts i h h' at tools unended (j, k, there, o, u) = each (i == j) refl
  where
    some_inj : some h ≡ some k → h ≡ k
    some_inj q = cc

    each : (b : Bool) → (i == j) ≡ b → IsUnder (set ts i h')
    each true e =
        let same : k ≡ h = sym (some_inj (sym at ∙ ap (get_elem? ts) ((==_iff i j).0 e) ∙ there)) in
        (
          j,
          h',
          get_elem?-set ts i j h h' at ∙ ap (λ b. if b then some h' else get_elem? ts j) e,
          tools (subst IsTooled same o),
          unended (subst (λ t. t.turn.finished ≡ false) same u),
        )
    each false e = (
      j,
      k,
      get_elem?-set ts i j h h' at ∙ ap (λ b. if b then some h' else get_elem? ts j) e ∙ there,
      o,
      u,
    )

-- A change of one turn that leaves it under way, if it was.
pub IsShut-set :
    (c : Control) (i : ℕ) (h h' : Held)
    → get_elem? c.turns i ≡ some h
    → h'.turn.closes_tools ≡ h.turn.closes_tools
    → (h.turn.finished ≡ false → h'.turn.finished ≡ false)
    → IsShut c
    → IsShut (record c { turns = set c.turns i h' })
IsShut-set c i h h' at same unended (inl none_yet) =
    inl (All-set c.turns i h h' at (λ u. same ∙ u) none_yet)
IsShut-set c i h h' at same unended (inr (inl under)) =
    inr (inl (IsUnder-set c.turns i h h' at (λ o. same ∙ o) unended under))
IsShut-set c i h h' at same unended (inr (inr p)) = inr (inr p)

-- The end of a turn that left the channel alone does so too.
pub IsShut-set_untooled :
    (c : Control) (i : ℕ) (h h' : Held)
    → get_elem? c.turns i ≡ some h
    → IsUntooled h
    → IsUntooled h'
    → IsShut c
    → IsShut (record c { turns = set c.turns i h' })
IsShut-set_untooled c i h h' at p p' (inl none_yet) =
    inl (All-set c.turns i h h' at (λ u. p') none_yet)
IsShut-set_untooled c i h h' at p p' (inr (inl (j, k, there, o, u))) =
    inr (inl (j, k, get_elem?-set c.turns i j h h' at ∙ elsewhere (i == j) refl, o, u))
  where
    some_inj : some h ≡ some k → h ≡ k
    some_inj q = cc

    elsewhere : (b : Bool) → (i == j) ≡ b → (if b then some h' else get_elem? c.turns j) ≡ some k
    elsewhere true e =
        let same : h ≡ k = some_inj (sym at ∙ ap (get_elem? c.turns) ((==_iff i j).0 e) ∙ there) in
        absurd (ground (arith, subst IsUntooled same p, o))
    elsewhere false e = there
IsShut-set_untooled c i h h' at p p' (inr (inr q)) = inr (inr q)

All-snoc :
    (ts : List Held) (h : Held) → IsUntooled h → All IsUntooled ts → All IsUntooled (ts ++ h ∷ [])
All-snoc [] h p a = (p, tt)
All-snoc (t ∷ ts) h p (q, qs) = (q, All-snoc ts h p qs)

-- A turn that leaves the channel alone begins.
pub IsShut-snoc :
    (c d : Control) (h : Held)
    → d.turns ≡ c.turns ++ h ∷ []
    → d.world ≡ c.world
    → IsUntooled h
    → IsShut c
    → IsShut d
IsShut-snoc c d h turns same p (inl none_yet) =
    inl (subst (All IsUntooled) (sym turns) (All-snoc c.turns h p none_yet))
IsShut-snoc c d h turns same p (inr (inl (i, k, at, o, u))) =
    inr (inl (i, k, ap (λ ts. get_elem? ts i) turns ∙ still (get_elem?-snoc c.turns h i), o, u))
  where
    still :
        (get_elem? (c.turns ++ h ∷ []) i ≡ get_elem? c.turns i)
          ⊎ ((get_elem? (c.turns ++ h ∷ []) i ≡ some h)
              × (i ≡ length c.turns)
              × (get_elem? c.turns i ≡ none))
        → get_elem? (c.turns ++ h ∷ []) i ≡ some k
    still (inl old) = old ∙ at
    still (inr (_, _, free)) = absurd (ground (arith, at, free))
IsShut-snoc c d h turns same p (inr (inr q)) = inr (inr (ap (λ w. w.host.paused) same ∙ q))
