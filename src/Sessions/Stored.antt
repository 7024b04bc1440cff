-- ===== src/Sessions/Stored.antt =====
-- One collection that holds a session: what a filtered write and a read do to that session.
use simple_directory.Common.{
  Bool, String, any, any-eq-is_some-find, ap, false, is_some, none, some, sym, true, update_first,
  ◌∙◌, ◌≡◌,
}
use simple_directory.Types.{ServerSession}
use simple_directory.Sessions.{
  Holder, HolderStore, has_session_id, holds, matched, read_session, session_of, set_matched,
}
use simple_directory.Sessions.Sole.{
  Sole, Sole-update_first, any-Sole, any-weaken, find-Sole, find-any, update_first-any, ◌⇒◌,
}

module _ (h : Holder) (id : String) where
  pub record SoleIn (x : ServerSession) (s : HolderStore h) : Type 0 where
    pub doc : h.Doc
    pub sole_doc : Sole (holds h (has_session_id id)) (h.collection.docs s) doc
    pub sole_session : Sole (has_session_id id) (h.sessions doc) x

  abbrev pub NotIn : HolderStore h → Type 0
  NotIn s = any (holds h (has_session_id id)) (h.collection.docs s) ≡ false

  module _ (p : ServerSession → Bool) (w : ◌⇒◌ p (has_session_id id)) where
    holds-weaken : ◌⇒◌ (holds h p) (holds h (has_session_id id))
    holds-weaken d e = any-weaken p (has_session_id id) w (h.sessions d) e

    holds-Sole : {x : ServerSession} {s : HolderStore h} (k : SoleIn x s) → holds h p k.doc ≡ p x
    holds-Sole k = any-Sole p (has_session_id id) w k.sole_session

    pub matched-SoleIn : {x : ServerSession} {s : HolderStore h} → SoleIn x s → matched h p s ≡ p x
    unfolding matched
    matched-SoleIn {x} {s} k =
        ap is_some (h.collection.find_one_lem (holds h p) s)
        ∙ sym (any-eq-is_some-find (holds h p) (h.collection.docs s))
        ∙ any-Sole (holds h p) (holds h (has_session_id id)) holds-weaken k.sole_doc
        ∙ holds-Sole k

    pub matched-NotIn : (s : HolderStore h) → NotIn s → matched h p s ≡ false
    unfolding matched
    matched-NotIn s n =
        ap is_some (h.collection.find_one_lem (holds h p) s)
        ∙ ap is_some (
            find-any (holds h p) (h.collection.docs s) (
              any-weaken (holds h p) (holds h (has_session_id id)) holds-weaken
                (h.collection.docs s) n))

    module _ (f : ServerSession → ServerSession) where
      pub set_matched-NotIn : (s : HolderStore h) → NotIn s → NotIn (set_matched h p f s)
      unfolding set_matched
      set_matched-NotIn s n =
          rw
            (
              h.collection.docs-update_one _ _ s,
              update_first-any (holds h p) _ (h.collection.docs s) (
                  any-weaken (holds h p) (holds h (has_session_id id)) holds-weaken
                    (h.collection.docs s) n),
            )
            n

      pub set_matched-miss :
          {x : ServerSession} {s : HolderStore h}
          → SoleIn x s
          → p x ≡ false
          → SoleIn x (set_matched h p f s)
      unfolding set_matched
      set_matched-miss {x} {s} k miss = record {
        doc = k.doc;
        sole_doc =
            rw
              (
                h.collection.docs-update_one _ _ s,
                update_first-any (holds h p) _ (h.collection.docs s) (
                    any-Sole (holds h p) (holds h (has_session_id id)) holds-weaken k.sole_doc
                    ∙ holds-Sole k
                    ∙ miss),
              )
              k.sole_doc;
        sole_session = k.sole_session;
      }

      pub set_matched-hit :
          {x : ServerSession} {s : HolderStore h}
          → SoleIn x s
          → p x ≡ true
          → has_session_id id (f x) ≡ true
          → SoleIn (f x) (set_matched h p f s)
      unfolding set_matched
      set_matched-hit {x} {s} k hit keep = record {
        doc = h.set_sessions (update_first p f (h.sessions k.doc)) k.doc;
        sole_doc = rw (h.collection.docs-update_one _ _ s) (
            Sole-update_first (holds h p) (holds h (has_session_id id)) holds-weaken _ k.sole_doc
              (holds-Sole k ∙ hit)
              (ap (any (has_session_id id)) (h.sessions-set_sessions _ k.doc)
                ∙ any-Sole (has_session_id id) (has_session_id id) (λ y e. e) updated
                ∙ keep));
        sole_session = rw (h.sessions-set_sessions _ k.doc) updated;
      }
        where
          updated : Sole (has_session_id id) (update_first p f (h.sessions k.doc)) (f x)
          updated = Sole-update_first p (has_session_id id) w f k.sole_session hit keep

  pub read_session-SoleIn :
      {x : ServerSession} {s : HolderStore h} → SoleIn x s → read_session h id s ≡ some x
  unfolding read_session
  read_session-SoleIn {x} {s} k =
      ap (session_of h (has_session_id id))
        (h.collection.find_one_lem _ s ∙ find-Sole (holds h (has_session_id id)) k.sole_doc)
      ∙ find-Sole (has_session_id id) k.sole_session

  pub read_session-NotIn : (s : HolderStore h) → NotIn s → read_session h id s ≡ none
  unfolding read_session
  read_session-NotIn s n = ap (session_of h (has_session_id id)) (
      h.collection.find_one_lem _ s
      ∙ find-any (holds h (has_session_id id)) (h.collection.docs s) n)
