-- ===== src/Agent/Loop/Advance.antt =====
-- agent/agent_loop.rs: what every step between the opening of a turn and its finalization leaves of
-- the world: the turn stays open under its identifier, and the router is only sent messages of it.
use openjarvis.Base.{
  All-append, List, [], ◌∷◌, ◌++◌, map, Option, some, Bool, false, not, ◌&&◌, ◌≡◌, refl, sym, ap,
  ◌∙◌, arith, ◌⊎◌, inl, inr, All, subst,
}
use mathlib.Core.List.{append_assoc, map-append, append-nil}
use openjarvis.Context.{Uuid}
use openjarvis.Thread.Turn.{current_turn_id}
use openjarvis.Session.{ThreadLocator}
use openjarvis.Router.{CommittedMessage, message_committed}
use openjarvis.Agent.Loop.{World}

-- Which of the payloads of the messages answer the source.
unfoldable pub marks : List CommittedMessage → List Bool
marks [] = []
marks (c ∷ cs) = map (λ d. d.reply_to_source) c.dispatch_events ++ marks cs

-- No mark is set, but that the first one may be if `b` is.
abbrev pub Single : Bool → List Bool → Type 0
Single b [] = Unit
Single b (f ∷ fs) = ((f && not b) ≡ false) × All (λ g. g ≡ false) fs

-- A message of the thread and of the turn.
abbrev pub Ours : ThreadLocator → Option Uuid → CommittedMessage → Type 0
Ours l turn c = (c.locator ≡ l) × (some c.turn_id ≡ turn)

marks-append : (cs ds : List CommittedMessage) → marks (cs ++ ds) ≡ marks cs ++ marks ds
unfolding marks
marks-append [] ds = refl
marks-append (c ∷ cs) ds =
    ap (λ fs. map (λ d. d.reply_to_source) c.dispatch_events ++ fs) (marks-append cs ds)
    ∙ sym (append_assoc (map (λ d. d.reply_to_source) c.dispatch_events) (marks cs) (marks ds))

silent-Single : (b : Bool) (fs : List Bool) → All (λ g. g ≡ false) fs → Single b fs
silent-Single b [] h = tt
silent-Single b (f ∷ fs) h = (ground (arith, h.0), h.1)

Single-silent : (fs : List Bool) → Single false fs → All (λ g. g ≡ false) fs
Single-silent [] h = tt
Single-silent (f ∷ fs) h = (ground (arith, h.0), h.1)

Single-append : (b : Bool) (fs gs : List Bool) → Single b fs → Single false gs → Single b (fs ++ gs)
Single-append b [] gs h k = silent-Single b gs (Single-silent gs k)
Single-append b (f ∷ fs) gs h k = (h.0, All-append (λ g. g ≡ false) fs gs h.1 (Single-silent gs k))

Single-trans :
    (b b' : Bool) (fs gs : List Bool)
    → Single b fs
    → (b' ≡ false) ⊎ ((b' ≡ b) × (fs ≡ []))
    → Single b' gs
    → Single b (fs ++ gs)
Single-trans b b' fs gs h (inl e) k = Single-append b fs gs h (subst (λ c. Single c gs) e k)
Single-trans b b' fs gs h (inr e) k = rw (e.1) (subst (λ c. Single c gs) e.0 k)

spent_trans :
    (b b' b'' : Bool) (fs gs : List Bool)
    → (b' ≡ false) ⊎ ((b' ≡ b) × (fs ≡ []))
    → (b'' ≡ false) ⊎ ((b'' ≡ b') × (gs ≡ []))
    → (b'' ≡ false) ⊎ ((b'' ≡ b) × (fs ++ gs ≡ []))
spent_trans b b' b'' fs gs h (inl e) = inl e
spent_trans b b' b'' fs gs (inl d) (inr e) = inl (e.0 ∙ d)
spent_trans b b' b'' fs gs (inr d) (inr e) = inr (e.0 ∙ d.0, rw (d.1) e.1)

module _ {S E F : Type 0} (l : ThreadLocator) where
  pub record Advance (w w' : World S E F) : Type 0 where
    pub sent : List CommittedMessage
    pub turn : current_turn_id w'.thread ≡ current_turn_id w.thread
    pub still : w'.event_tx.is_open ≡ w.event_tx.is_open
    pub events : w'.event_tx.sent ≡ w.event_tx.sent ++ map message_committed sent
    pub ours : All (Ours l (current_turn_id w.thread)) sent
    pub single : Single w.reply_to_source (marks sent)
    pub spent :
        (w'.reply_to_source ≡ false)
        ⊎ ((w'.reply_to_source ≡ w.reply_to_source) × (marks sent ≡ []))

  pub Advance-trans : (u v w : World S E F) → Advance u v → Advance v w → Advance u w
  Advance-trans u v w p q = record {
    sent = p.sent ++ q.sent;
    turn = q.turn ∙ p.turn;
    still = q.still ∙ p.still;
    events =
        q.events
        ∙ ap (λ es. es ++ map message_committed q.sent) p.events
        ∙ append_assoc u.event_tx.sent (map message_committed p.sent) (map message_committed q.sent)
        ∙ ap (λ es. u.event_tx.sent ++ es) (sym (map-append message_committed p.sent q.sent));
    ours =
        All-append (Ours l (current_turn_id u.thread)) p.sent q.sent p.ours
          (subst (λ t. All (Ours l t) q.sent) p.turn q.ours);
    single = rw (marks-append p.sent q.sent) (
        Single-trans u.reply_to_source v.reply_to_source (marks p.sent) (marks q.sent) p.single
          p.spent q.single);
    spent = rw (marks-append p.sent q.sent) (
        spent_trans u.reply_to_source v.reply_to_source w.reply_to_source (marks p.sent)
          (marks q.sent) p.spent q.spent);
  }

  -- A step that sends nothing.
  pub quiet :
      (w w' : World S E F)
      → current_turn_id w'.thread ≡ current_turn_id w.thread
      → w'.event_tx ≡ w.event_tx
      → w'.reply_to_source ≡ w.reply_to_source
      → Advance w w'
  unfolding marks
  quiet w w' t e r = record {
    sent = [];
    turn = t;
    still = ap (λ tx. tx.is_open) e;
    events = ap (λ tx. tx.sent) e ∙ sym (append-nil w.event_tx.sent);
    ours = tt;
    single = tt;
    spent = inr (r, refl);
  }
