-- ===== src/Server/Listener/Turns.antt =====
-- The turns of the I/O handlers in internal/server/single_listener_server.go.
use redi_go.Prelude.{
  ℕ, zero, suc, ◌+◌, ◌%◌, ◌^◌, ◌<◌, List, [], ◌∷◌, map, ◌≡◌, refl, sym, ap, ◌∙◌, false, inl, inr,
  arith, Option, some, none, length, get_elem?, set, get_elem?_total, get_elem?-set_self,
  get_elem?-set_ne, length-set, lt→ltb, ℕ_discrete, In, Distinct,
}
use native.Mathlib.Nat.{mod-lt, mod-eq_of_lt}
use mathlib.Core.Path.{transport}
use redi_go.Go.Result.{ok}
use redi_go.Server.IoHandler.{Effect, monitor, IoHandler, put_conn, raw_conn, add_conn}
use redi_go.Server.Listener.{Listening, turn, forward, Round, accept, single_listener}

-- A connection and its file descriptor.
pub record Client : Type 0 where
  pub conn : ℕ
  pub fd : ℕ

abbrev pub fds : List Client → List ℕ
fds cs = map (λ c. c.fd) cs

abbrev pub rounds_of : List Client → List Round
rounds_of cs = map (λ c. accept c.conn (raw_conn c.fd none)) cs

abbrev pub monitors : List Client → List Effect
monitors cs = map (λ c. monitor c.fd) cs

abbrev given : Listening → ℕ → IoHandler → Client → Listening
given l i h c = record l {
  io_handlers = set l.io_handlers i (record h { conns = put_conn h.conns c.fd (some c.conn) });
  next_io_handler = (l.next_io_handler + 1) % 2 ^ 64;
}

-- Handler `i` has the connection.
abbrev pub Has : Listening → ℕ → Client → Type 0
Has l i c = (h : IoHandler) × (get_elem? l.io_handlers i ≡ some h) × (h.conns c.fd ≡ some c.conn)

turn_small : (a m : ℕ) → 0 < m → a < 2 ^ 63 → turn a m ≡ ok (a % m)
unfolding turn
turn_small a zero some_handler lt = elim some_handler [ ]
turn_small a (suc n) some_handler lt = rw (lt→ltb a (2 ^ 63) lt) refl

forward-turn :
    (l : Listening) (c : Client) (h : IoHandler)
    → 0 < l.num_io_handlers
    → l.next_io_handler < 2 ^ 63
    → get_elem? l.io_handlers (l.next_io_handler % l.num_io_handlers) ≡ some h
    → forward l c.conn (raw_conn c.fd none)
      ≡ ok (given l (l.next_io_handler % l.num_io_handlers) h c, monitor c.fd ∷ [])
unfolding forward add_conn
forward-turn l c h some_handler lt there =
    rw (turn_small l.next_io_handler l.num_io_handlers some_handler lt, there) refl

put_conn_self : (f : ℕ → Option ℕ) (i : ℕ) (v : Option ℕ) → put_conn f i v i ≡ v
put_conn_self f i v = ground arith

put_conn_ne : (f : ℕ → Option ℕ) (i j : ℕ) (v : Option ℕ) → ¬ (j ≡ i) → put_conn f i v j ≡ f j
put_conn_ne f i j v ne = ground arith

Has-given :
    (l : Listening) (i : ℕ) (h : IoHandler) (c : Client)
    → i < length l.io_handlers
    → Has (given l i h c) i c
Has-given l i h c lt =
    (_, get_elem?-set_self l.io_handlers i _ lt, put_conn_self h.conns c.fd (some c.conn))

Has-kept :
    (l : Listening) (i j : ℕ) (h : IoHandler) (c d : Client)
    → get_elem? l.io_handlers i ≡ some h
    → i < length l.io_handlers
    → ¬ (d.fd ≡ c.fd)
    → Has l j d
    → Has (given l i h c) j d
Has-kept l i j h c d there lt ne (h', there', has) = elim (ℕ_discrete i j) [
  | yes same ↦
      let one : some h ≡ some h' = sym there ∙ ap (get_elem? l.io_handlers) same ∙ there' in
      let is_h : h ≡ h' = cc in
      (
        _,
        ap (get_elem? (given l i h c).io_handlers) (sym same)
            ∙ get_elem?-set_self l.io_handlers i _ lt,
        put_conn_ne h.conns c.fd d.fd (some c.conn) ne
            ∙ ap (λ (g : IoHandler). g.conns d.fd) is_h
            ∙ has,
      )
  | no apart ↦ (h', get_elem?-set_ne l.io_handlers i j _ apart ∙ there', has)
]

-- What the loop has done with its clients.
record HasTurns (l : Listening) (cs : List Client) : Type 0 where
  last : Listening
  serves : single_listener l (rounds_of cs) ≡ ok (last, monitors cs, false)
  counts : last.next_io_handler ≡ l.next_io_handler + length cs
  keeps : (i : ℕ) (d : Client) → Has l i d → ¬ (In d.fd (fds cs)) → Has last i d
  each :
      (j : ℕ) (c : Client)
      → get_elem? cs j ≡ some c
      → Has last ((l.next_io_handler + j) % l.num_io_handlers) c

next_turn :
    (l : Listening) (j a m : ℕ)
    → a ≡ l.next_io_handler + 1
    → (a + j) % m ≡ (l.next_io_handler + suc j) % m
next_turn l j a m e =
    let sum : a + j ≡ l.next_io_handler + suc j = omega (arith, e) in ap (λ n. n % m) sum

single_listener-HasTurns :
    (l : Listening) (cs : List Client)
    → 0 < l.num_io_handlers
    → length l.io_handlers ≡ l.num_io_handlers
    → l.next_io_handler + length cs < 2 ^ 63
    → Distinct (fds cs)
    → HasTurns l cs
unfolding single_listener
single_listener-HasTurns l [] some_handler all_there lt d = record {
  last = l;
  serves = refl;
  counts = omega arith;
  keeps = λ i d has n. has;
  each = λ j c e. let never : ⊥ = cc in elim never [ ];
}
single_listener-HasTurns l (c ∷ cs) some_handler all_there lt (new, d) =
    let i = l.next_io_handler % l.num_io_handlers in
    let in_range : i < length l.io_handlers =
      omega (arith, all_there, mod-lt l.next_io_handler some_handler) in
    let (h, there) = get_elem?_total l.io_handlers i in_range in
    let l1 = given l i h c in
    let first : forward l c.conn (raw_conn c.fd none) ≡ ok (l1, monitor c.fd ∷ []) =
      forward-turn l c h some_handler (omega (arith, lt)) there in
    let below : l.next_io_handler + 1 < 2 ^ 64 = omega (arith, lt) in
    let counted : l1.next_io_handler ≡ l.next_io_handler + 1 = mod-eq_of_lt below in
    let rest =
      single_listener-HasTurns l1 cs some_handler (length-set l.io_handlers i _ ∙ all_there)
        (omega (arith, lt, counted)) d in
    record {
      last = rest.last;
      serves = rw (first, rest.serves) refl;
      counts = omega (arith, rest.counts, counted);
      keeps = λ j e has absent.
          rest.keeps j e (Has-kept l i j h c e there in_range (λ same. absent (inl same)) has)
            (λ k. absent (inr k));
      each = λ j e at_j.
          each_of l c cs rest.last i j e (rest.keeps i c (Has-given l i h c in_range) new)
            (λ k found.
              transport
                (ap (λ n. Has rest.last n e)
                  (next_turn l k l1.next_io_handler l.num_io_handlers counted))
                (rest.each k e found))
            at_j;
    }
  where
    each_of :
        (l : Listening) (c : Client) (cs : List Client) (last : Listening) (i j : ℕ) (e : Client)
        → Has last (l.next_io_handler % l.num_io_handlers) c
        → ((k : ℕ)
            → get_elem? cs k ≡ some e
            → Has last ((l.next_io_handler + suc k) % l.num_io_handlers) e)
        → get_elem? (c ∷ cs) j ≡ some e
        → Has last ((l.next_io_handler + j) % l.num_io_handlers) e
    each_of l c cs last i zero e has later at_j =
        let is_c : c ≡ e = cc in
        let at_next : l.next_io_handler ≡ l.next_io_handler + 0 = omega arith in
        transport (ap (λ n. Has last (n % l.num_io_handlers) e) at_next)
          (transport (ap (Has last (l.next_io_handler % l.num_io_handlers)) is_c) has)
    each_of l c cs last i (suc j) e has later at_j = later j at_j

-- The connections that `Accept` returns one after the other, each with a descriptor of its own, are all monitored
-- in that order, the counter grows by their number, and the one at position `j` is given to the handler `j` places after
-- the one whose turn it was, modulo the number of handlers. There is a handler, the list holds
-- as many as the server says, and the counter stays below 2 ^ 63.
pub single_listener-turns :
    (l : Listening) (cs : List Client) (j : ℕ) (c : Client)
    → 0 < l.num_io_handlers
    → length l.io_handlers ≡ l.num_io_handlers
    → l.next_io_handler + length cs < 2 ^ 63
    → Distinct (fds cs)
    → get_elem? cs j ≡ some c
    → (last : Listening) × (single_listener l (rounds_of cs) ≡ ok (last, monitors cs, false))
      × (last.next_io_handler ≡ l.next_io_handler + length cs)
      × Has last ((l.next_io_handler + j) % l.num_io_handlers) c
single_listener-turns l cs j c some_handler all_there lt d at_j =
    let t = single_listener-HasTurns l cs some_handler all_there lt d in
    (t.last, t.serves, t.counts, t.each j c at_j)
