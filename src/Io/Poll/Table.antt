-- ===== src/Io/Poll/Table.antt =====
-- The pointers that the kernel holds into the table of src/io/epoll.cpp.
use theme_srv.Common.{
  ℕ, Bool, true, false, not, ◌&&◌, List, [], ◌∷◌, ◌≡◌, ◌≢◌, refl, sym, subst, ◌∙◌, ◌==◌, arith, inl,
  inr, Bool-cases, ==_iff, Option, some, none, >>=-eq-some,
}
use theme_srv.Io.Poll.{
  Events, EpollEvents, xlate_mask_to_epoll, xlate_epoll_to_mask, mem, erase, Poll, add_fd,
  remove_fd, Call, adds, removes, run_calls, deliver, Event, deliver_all, Wait, interrupted, broken,
  ready, dispatch,
}

-- Each descriptor that the kernel watches has its entry.
pub record IsCovered (p : Poll) : Type 0 where
  pub covers : (fd : ℕ) → mem fd p.watched ≡ true → mem fd p.callbacks ≡ true

-- A set of the server's events is the same after its translation to the kernel's events and
-- back.
pub xlate_epoll_to_mask-xlate_mask_to_epoll :
    (mask : Events) → xlate_epoll_to_mask (xlate_mask_to_epoll mask) ≡ mask
unfolding xlate_epoll_to_mask xlate_mask_to_epoll
xlate_epoll_to_mask-xlate_mask_to_epoll mask = ground arith

false_true : ◌≢◌ {A = Bool} false true
false_true h = cc h

pub mem-erase_same : (fd : ℕ) (xs : List ℕ) → mem fd (erase fd xs) ≡ false
mem-erase_same fd [] = refl
mem-erase_same fd (x ∷ xs) = ground (arith, mem-erase_same fd xs)

pub mem-erase_other : (a b : ℕ) (xs : List ℕ) → (a == b) ≡ false → mem a (erase b xs) ≡ mem a xs
mem-erase_other a b [] h = refl
mem-erase_other a b (x ∷ xs) h = ground (arith, mem-erase_other a b xs h)

pub mem-erase_found :
    (a b : ℕ) (xs : List ℕ) → mem a (erase b xs) ≡ true → ((a == b) ≡ false) × (mem a xs ≡ true)
mem-erase_found a b xs h = elim (Bool-cases (a == b)) [
  | inl same ↦ let e : a ≡ b = (==_iff a b).0 same in ground (arith, mem-erase_same b xs)
  | inr other ↦ (other, sym (mem-erase_other a b xs other) ∙ h)
]

-- An entry and a watch are added together, or neither.
pub covers_cons :
    (fd x : ℕ) (callbacks watched : List ℕ)
    → (mem x watched ≡ true → mem x callbacks ≡ true)
    → mem x (fd ∷ watched) ≡ true
    → mem x (fd ∷ callbacks) ≡ true
covers_cons fd x callbacks watched c h = elim (Bool-cases (x == fd)) [
  | inl same ↦ rw same refl
  | inr other ↦ rw other (c (rw other at h))
]

pub covers_erase :
    (fd x : ℕ) (callbacks watched : List ℕ)
    → (mem x watched ≡ true → mem x callbacks ≡ true)
    → mem x (erase fd watched) ≡ true
    → mem x (erase fd callbacks) ≡ true
covers_erase fd x callbacks watched c h =
    let (other, old) = mem-erase_found x fd watched h in
    mem-erase_other x fd callbacks other ∙ c old

pub add_fd-IsCovered :
    (p : Poll) (fd : ℕ) (room : Bool) → IsCovered p → IsCovered (add_fd p fd room).1
unfolding add_fd
add_fd-IsCovered p fd room c = elim (Bool-cases (mem fd p.callbacks)) [
  | inl old ↦ rw old c
  | inr new ↦ elim (Bool-cases (room && not (mem fd p.watched))) [
    | inl taken ↦
        rw (new, taken)
          (record { covers = λ x h. covers_cons fd x p.callbacks p.watched (c.covers x) h })
    | inr full ↦ rw (new, full) c
  ]
]

remove_fd-IsCovered : (p : Poll) (fd : ℕ) → IsCovered p → IsCovered (remove_fd p fd).1
unfolding remove_fd
remove_fd-IsCovered p fd c = elim (Bool-cases (mem fd p.watched)) [
  | inl here ↦
      rw here (record { covers = λ x h. covers_erase fd x p.callbacks p.watched (c.covers x) h })
  | inr gone ↦ rw gone c
]

pub run_calls-IsCovered : (p : Poll) (cs : List Call) → IsCovered p → IsCovered (run_calls p cs)
unfolding run_calls
run_calls-IsCovered p [] c = c
run_calls-IsCovered p (adds fd room ∷ cs) c =
    run_calls-IsCovered (add_fd p fd room).1 cs (add_fd-IsCovered p fd room c)
run_calls-IsCovered p (removes fd ∷ cs) c =
    run_calls-IsCovered (remove_fd p fd).1 cs (remove_fd-IsCovered p fd c)

-- A descriptor with an entry that the kernel does not watch stays so.
record IsStale (fd : ℕ) (p : Poll) : Type 0 where
  entry : mem fd p.callbacks ≡ true
  unwatched : mem fd p.watched ≡ false

twice :
    (p : Poll) (fd : ℕ) (room : Bool) → mem fd p.callbacks ≡ true → add_fd p fd room ≡ (false, p)
unfolding add_fd
twice p fd room h = rw h refl

absent : (p : Poll) (fd : ℕ) → mem fd p.watched ≡ false → remove_fd p fd ≡ (false, p)
unfolding remove_fd
absent p fd h = rw h refl

add_fd_other :
    (p : Poll) (fd x : ℕ) (room : Bool)
    → IsStale fd p
    → (fd == x) ≡ false
    → IsStale fd (add_fd p x room).1
unfolding add_fd
add_fd_other p fd x room s other = record {
  entry = ground (arith, s.entry);
  unwatched = ground (arith, s.unwatched);
}

remove_fd_other :
    (p : Poll) (fd x : ℕ) → IsStale fd p → (fd == x) ≡ false → IsStale fd (remove_fd p x).1
unfolding remove_fd
remove_fd_other p fd x s other = record {
  entry = ground (arith, s.entry, mem-erase_other fd x p.callbacks other);
  unwatched = ground (arith, s.unwatched, mem-erase_other fd x p.watched other);
}

add_fd-IsStale : (p : Poll) (fd x : ℕ) (room : Bool) → IsStale fd p → IsStale fd (add_fd p x room).1
add_fd-IsStale p fd x room s = elim (Bool-cases (fd == x)) [
  | inl same ↦
      subst (λ z. IsStale fd (add_fd p z room).1) ((==_iff fd x).0 same)
        (subst (λ q. IsStale fd q.1) (sym (twice p fd room s.entry)) s)
  | inr other ↦ add_fd_other p fd x room s other
]

remove_fd-IsStale : (p : Poll) (fd x : ℕ) → IsStale fd p → IsStale fd (remove_fd p x).1
remove_fd-IsStale p fd x s = elim (Bool-cases (fd == x)) [
  | inl same ↦
      subst (λ z. IsStale fd (remove_fd p z).1) ((==_iff fd x).0 same)
        (subst (λ q. IsStale fd q.1) (sym (absent p fd s.unwatched)) s)
  | inr other ↦ remove_fd_other p fd x s other
]

run_calls-IsStale :
    (p : Poll) (fd : ℕ) (cs : List Call) → IsStale fd p → IsStale fd (run_calls p cs)
unfolding run_calls
run_calls-IsStale p fd [] s = s
run_calls-IsStale p fd (adds x room ∷ cs) s =
    run_calls-IsStale (add_fd p x room).1 fd cs (add_fd-IsStale p fd x room s)
run_calls-IsStale p fd (removes x ∷ cs) s =
    run_calls-IsStale (remove_fd p x).1 fd cs (remove_fd-IsStale p fd x s)

covers_end :
    (p : Poll) (fd x : ℕ)
    → IsCovered p
    → IsStale fd p
    → mem x p.watched ≡ true
    → mem x (erase fd p.callbacks) ≡ true
covers_end p fd x c s h = elim (Bool-cases (x == fd)) [
  | inl same ↦
      absurd (
        false_true (sym s.unwatched ∙ subst (λ z. mem z p.watched ≡ true) ((==_iff x fd).0 same) h))
  | inr other ↦ mem-erase_other x fd p.callbacks other ∙ c.covers x h
]

-- The kernel's pointers into the table of callbacks stay valid: if each descriptor that it
-- watches has its entry, then that holds again when an event of a descriptor with an entry has
-- been delivered, whatever calls of `add_fd` and `remove_fd` its callback makes.
pub deliver-IsCovered :
    (p : Poll) (fd : ℕ) (events : EpollEvents) (calls : List Call)
    → IsCovered p
    → mem fd p.callbacks ≡ true
    → IsCovered (deliver p fd events calls)
unfolding deliver
deliver-IsCovered p fd events calls c known = elim (Bool-cases (xlate_epoll_to_mask events).hup) [
  | inr calm ↦ rw calm (run_calls-IsCovered p calls c)
  | inl hung ↦
      let p₁ : Poll = record p { watched = erase fd p.watched } in
      let c₁ : IsCovered p₁ = record {
        covers = λ x h. c.covers x (mem-erase_found x fd p.watched h).1;
      } in
      let s₁ : IsStale fd p₁ = record { entry = known; unwatched = mem-erase_same fd p.watched } in
      let p₂ = run_calls p₁ calls in
      let c₂ = run_calls-IsCovered p₁ calls c₁ in
      let s₂ = run_calls-IsStale p₁ fd calls s₁ in
      rw hung (record { covers = λ x h. covers_end p₂ fd x c₂ s₂ h })
]

same_poll : (p q : Poll) → some p ≡ some q → p ≡ q
same_poll p q h = cc h

none_some : (p : Poll) → ◌≢◌ {A = Option Poll} none (some p)
none_some p h = cc h

none_pair : (b : Bool) (p : Poll) → ◌≢◌ {A = Option (Bool × Poll)} none (some (b, p))
none_pair b p h = cc h

second_of :
    (a b : Bool) (p q : Poll) → ◌≡◌ {A = Option (Bool × Poll)} (some (a, p)) (some (b, q)) → p ≡ q
second_of a b p q h = cc h

deliver_all-IsCovered :
    (p p' : Poll) (es : List Event) → IsCovered p → deliver_all p es ≡ some p' → IsCovered p'
unfolding deliver_all
deliver_all-IsCovered p p' [] c h = subst IsCovered (same_poll p p' h) c
deliver_all-IsCovered p p' (e ∷ es) c h = elim (Bool-cases (mem e.fd p.callbacks)) [
  | inl known ↦
      deliver_all-IsCovered (deliver p e.fd e.events e.calls) p' es
        (deliver-IsCovered p e.fd e.events e.calls c known) (rw known at h)
  | inr gone ↦ absurd (none_some p' (rw gone at h))
]

-- If each descriptor that the kernel watches has its entry in the table, then that holds again
-- after a call of `dispatch` that neither aborts nor uses an entry that is no longer there,
-- however the wait ended.
pub dispatch-IsCovered :
    (p p' : Poll) (w : Wait) (b : Bool) → IsCovered p → dispatch p w ≡ some (b, p') → IsCovered p'
unfolding dispatch
dispatch-IsCovered p p' interrupted b c h = subst IsCovered (second_of false b p p' h) c
dispatch-IsCovered p p' broken b c h = absurd (none_pair b p' h)
dispatch-IsCovered p p' (ready es) b c h =
    let (q, e, h₁) = >>=-eq-some (deliver_all p es) (λ q. some (true, q)) h in
    subst IsCovered (second_of true b q p' h₁) (deliver_all-IsCovered p q es c e)
