-- ===== src/Acceptor/Tests.antt =====
-- The theorem about sznet/net/Acceptor.cpp at a system of two descriptors.
use sznet.Base.{
  ℕ, suc, ◌-◌, ◌≡◌, refl, ◌==◌, ltb, Bool, true, false, ◌&&◌, some, none, [], if◌then◌else◌, arith,
}
use sznet.Acceptor.Descriptors.{accepted, emfile, other_error, Calls, View, KeepsOpen, IsDocumented}
use sznet.Acceptor.{Acceptor, handle_reads}
use sznet.Acceptor.Drained.{Drain, handle_reads-Drain}

-- A system that numbers its descriptors: `last` counts those it has given out.
record Kernel : Type 0 where
  clients : ℕ
  left : ℕ
  last : ℕ
  used : ℕ → Bool

abbrev opened_in : Kernel → ℕ → Bool
opened_in k g = ltb g k.last && k.used g

-- The next descriptor is taken.
abbrev take_one : Kernel → ℕ → Kernel
take_one k n = record k {
  clients = n;
  left = k.left - 1;
  last = suc k.last;
  used = λ g. if g == k.last then true else k.used g;
}

abbrev kernel : Calls Kernel
kernel = record {
  accept = λ k.
      if ltb 0 k.clients
      then (if ltb 0 k.left then (accepted k.last, take_one k (k.clients - 1)) else (emfile, k))
      else (other_error, k);
  open_null = λ k. if ltb 0 k.left then (some k.last, take_one k k.clients) else (none, k);
  close = λ fd k.
      if opened_in k fd
      then record k { left = suc k.left; used = λ g. if g == fd then false else k.used g }
      else k;
}

abbrev view : View Kernel
view = record { waiting = λ k. k.clients; room = λ k. k.left; is_open = opened_in }

take_one-keeps : (k : Kernel) (n : ℕ) → KeepsOpen view k (take_one k n)
take_one-keeps k n g o = ground (arith, o)

take_one-opened : (k : Kernel) (n : ℕ) → opened_in (take_one k n) k.last ≡ true
take_one-opened k n = ground arith

last-closed : (k : Kernel) → opened_in k k.last ≡ false
last-closed k = ground arith

kernel-IsDocumented : IsDocumented view kernel
kernel-IsDocumented = record {
  accepts = λ k w r.
      let some_client : ltb 0 k.clients ≡ true = ground (arith, w) in
      let some_room : ltb 0 k.left ≡ true = ground (arith, r) in
      record {
        fd = k.last;
        after = take_one k (k.clients - 1);
        answer = rw (some_client, some_room) refl;
        served = omega (arith, w);
        taken = omega (arith, r);
        new = last-closed k;
        opened = take_one-opened k (k.clients - 1);
        keeps = take_one-keeps k (k.clients - 1);
      };
  refuses = λ k w r.
      let some_client : ltb 0 k.clients ≡ true = ground (arith, w) in
      let no_room : ltb 0 k.left ≡ false = ground (arith, r) in
      record {
        after = k;
        answer = rw (some_client, no_room) refl;
        same_waiting = refl;
        same_room = refl;
        keeps = λ g o. o;
      };
  opens = λ k r.
      let some_room : ltb 0 k.left ≡ true = ground (arith, r) in
      record {
        fd = k.last;
        after = take_one k k.clients;
        answer = rw some_room refl;
        same_waiting = refl;
        taken = omega (arith, r);
        opened = take_one-opened k k.clients;
      };
  closes = λ k fd o.
      rw o record { same_waiting = refl; given = refl; keeps = λ g other o'. rw other o' };
}

-- Three clients wait, the reserve is descriptor 0, and there is room for two.
abbrev three_wait : Kernel
three_wait = record { clients = 3; left = 2; last = 1; used = λ g. g == 0 }

abbrev listens : Acceptor
listens = record { idle = some 0; handed = [] }

handle_reads-Drain_example :
    Drain view true 2 listens three_wait (handle_reads kernel true 2 (listens, three_wait))
handle_reads-Drain_example =
    handle_reads-Drain view kernel kernel-IsDocumented true 2 listens three_wait (omega arith)
      record { fd = 0; kept = refl; opened = refl }
