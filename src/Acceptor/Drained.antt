-- ===== src/Acceptor/Drained.antt =====
-- The clients that wait at an acceptor of sznet/net/Acceptor.cpp.
use sznet.Base.{
  ℕ, zero, suc, ◌+◌, ◌-◌, ◌<◌, ◌≤◌, ◌≡◌, refl, sym, ap, length-append, ◌∙◌, subst, ◌==◌, ltb, min,
  Bool, true, false, ◌&&◌, some, [], ◌∷◌, if◌then◌else◌, length, arith, Bool-cases, inl, inr,
}
use sznet.Run.{Run, ok, abort}
use mathlib.Core.Bool.{false≢true}
use sznet.Acceptor.Descriptors.{Calls, View, Accepts, Refuses, IsDocumented}
use sznet.Acceptor.{Acceptor, after_accept, handle_read, handle_reads}

module _ {S : Type 0} (v : View S) where
  -- The acceptor holds the descriptor that it keeps in reserve.
  pub record Held (a : Acceptor) (s : S) : Type 0 where
    pub fd : ℕ
    pub kept : a.idle ≡ some fd
    pub opened : v.is_open s fd ≡ true

  -- One client less waits, and it is handed over if there is room and a callback.
  pub record Served (callback : Bool) (a : Acceptor) (s : S) (r : Acceptor × S) : Type 0 where
    pub served : v.waiting s ≡ suc (v.waiting r.1)
    pub left : v.room r.1 ≡ (if callback then v.room s - 1 else v.room s)
    pub handed :
        length r.0.handed ≡ length a.handed + (if callback && ltb 0 (v.room s) then 1 else 0)
    pub held : Held r.0 r.1

  -- After n calls n clients less wait.
  pub record Drained (callback : Bool) (n : ℕ) (a : Acceptor) (s : S) (r : Acceptor × S)
      : Type 0 where
    pub served : v.waiting s ≡ n + v.waiting r.1
    pub handed : length r.0.handed ≡ length a.handed + (if callback then n else zero)
    pub held : Held r.0 r.1

  -- The descriptors that n clients take at a time.
  abbrev pub needed : Bool → ℕ → ℕ
  needed true n = n
  needed false n = min n 1

  pub data Drain (callback : Bool) (n : ℕ) (a : Acceptor) (s : S)
      : Run (Acceptor × S) → Type 0 where
    drained :
        {r : Acceptor × S}
        → needed callback n ≤ v.room s
        → Drained callback n a s r
        → Drain callback n a s (ok r)
    ended : v.room s < needed callback n → Drain callback n a s abort

  no_room : (b : Bool) → zero ≡ (if b then zero - 1 else zero)
  no_room true = refl
  no_room false = refl

  nothing_handed : (b : Bool) (n : ℕ) → n ≡ n + (if b && false then 1 else 0)
  nothing_handed true n = omega arith
  nothing_handed false n = omega arith

  -- A descriptor that was not open is another one than those that were.
  other_fd : {s : S} {g fd : ℕ} → v.is_open s g ≡ true → v.is_open s fd ≡ false → (g == fd) ≡ false
  other_fd {s} {g} {fd} o n = elim (Bool-cases (g == fd)) [
    | inl e ↦
        let o' : v.is_open s fd ≡ true = subst (λ k. v.is_open s k ≡ true) (ground (arith, e)) o in
        absurd (false≢true (sym n ∙ o'))
    | inr e ↦ e
  ]

  module _ (sys : Calls S) (doc : IsDocumented v sys) where
    -- With room
    Accepts-Served :
        (callback : Bool) (a : Acceptor) (s : S)
        → Accepts v s (sys.accept s)
        → Held a s
        → Served callback a s (after_accept sys callback a (sys.accept s))
    Accepts-Served true a s acc h =
        let some_room : ltb 0 (v.room s) ≡ true = rw acc.taken (ground arith) in
        rw acc.answer record {
          served = acc.served;
          left = rw acc.taken (omega arith);
          handed = rw some_room (length-append a.handed (acc.fd ∷ []));
          held = record { fd = h.fd; kept = h.kept; opened = acc.keeps h.fd h.opened };
        }
    Accepts-Served false a s acc h =
        let c = doc.closes acc.after acc.fd acc.opened in
        rw acc.answer record {
          served = acc.served ∙ ap suc (sym c.same_waiting);
          left = c.given ∙ sym acc.taken;
          handed = omega arith;
          held = record {
            fd = h.fd;
            kept = h.kept;
            opened = c.keeps h.fd (other_fd h.opened acc.new) (acc.keeps h.fd h.opened);
          };
        }

    -- The reserve makes room for the client, which is closed at once, and is taken again.
    Refuses-Served :
        (callback : Bool) (a : Acceptor) (s : S)
        → zero < v.waiting s
        → v.room s ≡ zero
        → Refuses v s (sys.accept s)
        → Held a s
        → Served callback a s (after_accept sys callback a (sys.accept s))
    Refuses-Served callback a s w r ref h =
        let c = doc.closes ref.after h.fd (ref.keeps h.fd h.opened) in
        let s1 = sys.close h.fd ref.after in
        let acc =
          doc.accepts s1 (omega (arith, c.same_waiting, ref.same_waiting, w))
            (omega (arith, c.given)) in
        let c2 = doc.closes acc.after acc.fd acc.opened in
        let op = doc.opens (sys.close acc.fd acc.after) (omega (arith, c2.given)) in
        let full : v.room op.after ≡ zero =
          omega (arith, op.taken, c2.given, acc.taken, c.given, ref.same_room, r) in
        let no_more : ltb zero (v.room s) ≡ false = ground (arith, r) in
        rw (ref.answer, h.kept, acc.answer, op.answer)
          record {
            served = omega (
              arith, op.same_waiting, c2.same_waiting, acc.served, c.same_waiting, ref.same_waiting,
            );
            left = rw (full, r) (no_room callback);
            handed = rw no_more (nothing_handed callback (length a.handed));
            held = record { fd = op.fd; kept = refl; opened = op.opened };
          }

    drain_more :
        (callback : Bool) (n : ℕ) (a : Acceptor) (s : S) (y : Acceptor × S)
        → zero < v.room s
        → Served callback a s y
        → {r : Run (Acceptor × S)} → Drain callback n y.0 y.1 r
        → Drain callback (suc n) a s r
    drain_more true n a s y w one (drained fits d) =
        let some_room : ltb 0 (v.room s) ≡ true = ground (arith, w) in
        let first =
          subst (λ b. length y.0.handed ≡ length a.handed + (if b then 1 else 0)) some_room
            one.handed in
        drained (omega (arith, fits, one.left, w)) record {
          served = omega (arith, one.served, d.served);
          handed = omega (arith, d.handed, first);
          held = d.held;
        }
    drain_more true n a s y w one (ended short) = ended (omega (arith, short, one.left, w))
    drain_more false n a s y w one (drained fits d) = drained (omega (arith, w)) record {
      served = omega (arith, one.served, d.served);
      handed = omega (arith, d.handed, one.handed);
      held = d.held;
    }
    drain_more false n a s y w one (ended short) = ended (omega (arith, short, one.left, w))

    needed-suc : (callback : Bool) (n : ℕ) → zero < needed callback (suc n)
    needed-suc true n = omega arith
    needed-suc false n = omega arith

    nothing_needed : (callback : Bool) (r : ℕ) → needed callback zero ≤ r
    nothing_needed true r = omega arith
    nothing_needed false r = omega arith

    no_more_handed : (callback : Bool) (n : ℕ) → n ≡ n + (if callback then zero else zero)
    no_more_handed true n = omega arith
    no_more_handed false n = omega arith

    handle_read-ok :
        (callback : Bool) (a : Acceptor) (s : S)
        → Accepts v s (sys.accept s)
        → handle_read sys callback (a, s) ≡ ok (after_accept sys callback a (sys.accept s))
    unfolding handle_read
    handle_read-ok callback a s acc = rw acc.answer refl

    handle_read-abort :
        (callback : Bool) (a : Acceptor) (s : S)
        → Refuses v s (sys.accept s)
        → handle_read sys callback (a, s) ≡ abort
    unfolding handle_read
    handle_read-abort callback a s ref = rw ref.answer refl

    -- If at least n clients wait at an acceptor that holds its reserve, and the system calls
    -- behave as documented, n calls of handleRead serve n of them and keep the reserve, if there
    -- are descriptors for those that the callback is given (one, if there is no callback);
    -- otherwise the program is ended.
    pub handle_reads-Drain :
        (callback : Bool) (n : ℕ) (a : Acceptor) (s : S)
        → n ≤ v.waiting s
        → Held a s
        → Drain callback n a s (handle_reads sys callback n (a, s))
    handle_reads-Drain callback zero a s w h =
        drained {r = (a, s)} (nothing_needed callback (v.room s)) record {
          served = omega arith;
          handed = no_more_handed callback (length a.handed);
          held = h;
        }
    handle_reads-Drain callback (suc n) a s w h = elim (Bool-cases (ltb 0 (v.room s))) [
      | inl e ↦
          let r : zero < v.room s = ground (arith, e) in
          let acc = doc.accepts s (omega (arith, w)) r in
          let one = Accepts-Served callback a s acc h in
          let (a', s') = after_accept sys callback a (sys.accept s) in
          rw (handle_read-ok callback a s acc) (
            drain_more callback n a s _ r one
              (handle_reads-Drain callback n a' s' (omega (arith, w, one.served)) one.held))
      | inr e ↦
          let r : v.room s ≡ zero = ground (arith, e) in
          rw (handle_read-abort callback a s (doc.refuses s (omega (arith, w)) r))
            (ended (subst (λ k. k < needed callback (suc n)) (sym r) (needed-suc callback n)))
    ]
