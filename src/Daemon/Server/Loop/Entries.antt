-- ===== src/Daemon/Server/Loop/Entries.antt =====
-- The entries and the clients of src/daemon/server.cpp as callbacks change them.
use theme_srv.Common.{
  ℕ, true, false, List, ◌∷◌, ◌==◌, ◌≡◌, sym, ◌∙◌, ap, subst, inl, inr, Bool-cases,
}
use theme_srv.Io.Cipher.{Cipher}
use theme_srv.Io.Poll.{Events, mem, erase}
use theme_srv.Io.Poll.Table.{mem-erase_other, mem-erase_found}
use theme_srv.Daemon.Client.{Client}
use theme_srv.Daemon.Server.Loop.{Incoming, World, fds, put_client, erase_client, accept_cb}
use theme_srv.Daemon.Server.Loop.Clients.{
  Distinct, Within, mem-erase_absent, Distinct-erase, fds-put_client, fds-erase_client, differs,
}
use theme_srv.Daemon.Server.Loop.Accepted.{
  pending_fds, AreFresh, open_fds, IsSound, Keeps, kept, accept_all-IsSound,
}

module _ {ev : Cipher} where
  pub accept_cb-IsSound :
      (incoming : List Incoming) (mask : Events) (w : World ev)
      → IsSound w
      → AreFresh (open_fds w) incoming
      → IsSound (accept_cb incoming mask w) × Keeps w (accept_cb incoming mask w)
  unfolding accept_cb
  accept_cb-IsSound incoming mask w sound fresh = elim (Bool-cases mask.readable) [
    | inl e ↦ rw e (accept_all-IsSound incoming w sound fresh)
    | inr e ↦ rw e (sound, kept w)
  ]

  -- The server is sound but for the entry of a descriptor that is neither watched nor waited for.
  pub record IsSoundBut (fd : ℕ) (w : World ev) : Type 0 where
    pub watched_has : Within w.poll.watched w.poll.callbacks
    pub entry_has :
        (x : ℕ) → (x == fd) ≡ false → mem x w.poll.callbacks ≡ true → mem x (open_fds w) ≡ true
    pub open_distinct : Distinct (open_fds w)
    pub pending_has : Within (pending_fds w.pending) w.poll.callbacks
    pub pending_distinct : Distinct (pending_fds w.pending)
    pub unwatched : mem fd w.poll.watched ≡ false
    pub unwaited : mem fd (pending_fds w.pending) ≡ false

  -- The erasure of the entry
  pub erased_entry :
      (fd : ℕ) (w : World ev)
      → IsSoundBut fd w
      → IsSound (record w {
        poll = record { callbacks = erase fd w.poll.callbacks; watched = w.poll.watched };
      })
  erased_entry fd w b = record {
    watched_has = λ x h.
        mem-erase_other x fd w.poll.callbacks (differs x fd w.poll.watched b.unwatched h)
        ∙ b.watched_has x h;
    entry_has = λ x h.
        let (other, old) = mem-erase_found x fd w.poll.callbacks h in b.entry_has x other old;
    open_distinct = b.open_distinct;
    pending_has = λ x h.
        mem-erase_other x fd w.poll.callbacks (differs x fd (pending_fds w.pending) b.unwaited h)
        ∙ b.pending_has x h;
    pending_distinct = b.pending_distinct;
  }

  pub sound_but :
      (fd : ℕ) (w : World ev)
      → IsSound w
      → mem fd w.poll.watched ≡ false
      → mem fd (pending_fds w.pending) ≡ false
      → IsSoundBut fd w
  sound_but fd w s u v = record {
    watched_has = s.watched_has;
    entry_has = λ x other h. s.entry_has x h;
    open_distinct = s.open_distinct;
    pending_has = s.pending_has;
    pending_distinct = s.pending_distinct;
    unwatched = u;
    unwaited = v;
  }

  -- A client that is replaced, and one that is erased
  pub put_client-IsSound :
      (fd : ℕ) (cli : Client ev) (w : World ev)
      → IsSound w
      → IsSound (record w { clients = put_client fd cli w.clients })
  put_client-IsSound fd cli w s =
      let e = ap (◌∷◌ w.listen_fd) (sym (fds-put_client fd cli w.clients)) in
      record {
        watched_has = s.watched_has;
        entry_has = λ x h. subst (λ z. mem x z ≡ true) e (s.entry_has x h);
        open_distinct = subst Distinct e s.open_distinct;
        pending_has = s.pending_has;
        pending_distinct = s.pending_distinct;
      }

  pub erase_client-IsSoundBut :
      (fd : ℕ) (w : World ev)
      → (fd == w.listen_fd) ≡ false
      → IsSoundBut fd w
      → IsSoundBut fd (record w { clients = erase_client fd w.clients })
  erase_client-IsSoundBut fd w client s =
      let e = ap (◌∷◌ w.listen_fd) (sym (fds-erase_client fd w.clients)) in
      record {
        watched_has = s.watched_has;
        entry_has = λ x other h.
            subst (λ z. mem x z ≡ true) e
              (rw (mem-erase_other x fd (fds w.clients) other) (s.entry_has x other h));
        open_distinct = subst Distinct e (
          mem-erase_absent w.listen_fd fd (fds w.clients) s.open_distinct.0,
          Distinct-erase fd (fds w.clients) s.open_distinct.1,
        );
        pending_has = s.pending_has;
        pending_distinct = s.pending_distinct;
        unwatched = s.unwatched;
        unwaited = s.unwaited;
      }
