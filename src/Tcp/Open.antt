-- ===== src/Tcp/Open.antt =====
-- servers/tcpip/tcp.c: opening and closing PCBs.
use microkernel_book.Base.{
  ℕ, zero, suc, ◌+◌, ◌≡◌, ◌≢◌, refl, sym, ap, ◌∙◌, ◌⊎◌, inl, inr, arith, true, false, Bool-cases,
  none, some, Option-cases, List, [], ◌∷◌, ◌++◌, update-cases, update_self, has, erase, Distinct,
  has-append, append-Distinct, erase-Distinct, has-erase_self, has-erase_ne,
}
use microkernel_book.Mbuf.Ops.{mbuf_alloc, bytes_at}
use microkernel_book.Tcp.State.{Tcp, Pcb, set_pcb, ipv4_addr_unspecified, tcp_pcbs_max}
use microkernel_book.Tcp.Ops.{
  matches_local, tcp_lookup_local, find_unused, fresh_pcb, tcp_new, try_port, find_port, connect_at,
  tcp_connect, tcp_close,
}
use microkernel_book.Tcp.Window.{OnSome, then_some-OnSome, Flow, same-Flow}
use microkernel_book.Tcp.Ports.{Good, GoodIn, GoodAt}
use microkernel_book.Tcp.Sockets.{first-none}

-- The PCB that the search of `tcp_new` finds is not in use.
find_unused_lem :
    (rounds : ℕ) (s : Tcp) (i j : ℕ) → find_unused rounds s i ≡ some j → (s.pcbs j).in_use ≡ false
unfolding find_unused
find_unused_lem zero s i j e = cc
find_unused_lem (suc rounds) s i j e = ground (arith, find_unused_lem rounds s (i + 1) j)

fresh_pcb-Flow : (arg : ℕ) (old : Pcb) → Flow (fresh_pcb arg old)
unfolding fresh_pcb mbuf_alloc bytes_at
fresh_pcb-Flow arg old = record {
  rx_bounds = ((omega arith, omega arith), tt);
  tx_bounds = ((omega arith, omega arith), tt);
  window = refl;
}

active_ne :
    (s : Tcp) (i j : ℕ) → GoodIn s → (s.pcbs i).in_use ≡ false → has j s.active ≡ true → j ≢ i
active_ne s i j g free h e = let used = g.used j h in ground (arith, rw e at used, free)

module _ (s : Tcp) (i : ℕ) (q : Pcb) (g : GoodIn s) where
  -- The active PCBs are as they were.
  others_same :
      ((j : ℕ) → has j s.active ≡ true → j ≢ i)
      → (j : ℕ) → has j s.active ≡ true
      → (set_pcb i q s).pcbs j ≡ s.pcbs j
  others_same ne j h = elim (update-cases s.pcbs i q j) [
    | inl (e, _) ↦ absurd (ne j h e)
    | inr (_, u) ↦ u
  ]

  set_pcb-Flow :
      (q.in_use ≡ true → Flow q)
      → (j : ℕ) → ((set_pcb i q s).pcbs j).in_use ≡ true
      → Flow ((set_pcb i q s).pcbs j)
  set_pcb-Flow new j used = elim (update-cases s.pcbs i q j) [
    | inl (_, u) ↦ rw u (new (rw u at used))
    | inr (_, u) ↦ rw u (g.flow j (rw u at used))
  ]

  -- A PCB that is not active is set.
  set_inactive-Good :
      ((j : ℕ) → has j s.active ≡ true → j ≢ i)
      → (q.in_use ≡ true → Flow q)
      → GoodIn (set_pcb i q s)
  set_inactive-Good ne new = record {
    flow = set_pcb-Flow new;
    used = λ j h. ap (λ (p : Pcb). p.in_use) (others_same ne j h) ∙ g.used j h;
    distinct = g.distinct;
    unspecified = λ j h. ap (λ (p : Pcb). p.local.addr) (others_same ne j h) ∙ g.unspecified j h;
    ports = λ j l a b e. g.ports j l a b (
        sym (ap (λ (p : Pcb). p.local.port) (others_same ne j a))
        ∙ e
        ∙ ap (λ (p : Pcb). p.local.port) (others_same ne l b));
  }

pub tcp_new-Good : (arg : ℕ) (s : Tcp) → GoodIn s → GoodIn (tcp_new arg s).1
unfolding tcp_new
tcp_new-Good arg s g = elim (Option-cases (find_unused tcp_pcbs_max s 0)) [
  | inl none_free ↦ rw none_free g
  | inr (i, e) ↦ rw e (
      set_inactive-Good s i (fresh_pcb arg (s.pcbs i)) g
        (λ j h. active_ne s i j g (find_unused_lem tcp_pcbs_max s 0 i e) h)
        λ _. fresh_pcb-Flow arg (s.pcbs i))
]

has-erase :
    (i j : ℕ) (xs : List ℕ) → Distinct xs → has j (erase i xs) ≡ true → (j ≢ i) × (has j xs ≡ true)
has-erase i j xs d h =
    let ne : j ≢ i = (λ e. let gone = has-erase_self i xs d in ground (arith, rw e at h, gone)) in
    (ne, sym (has-erase_ne j i xs ne) ∙ h)

fewer-Good :
    (pcbs : ℕ → Pcb) (active : List ℕ) (i : ℕ) → Good pcbs active → Good pcbs (erase i active)
fewer-Good pcbs active i g =
    let left = λ (j : ℕ) (h : has j (erase i active) ≡ true). has-erase i j active g.distinct h in
    record {
      flow = g.flow;
      used = λ j h. g.used j (left j h).1;
      distinct = erase-Distinct i active g.distinct;
      unspecified = λ j h. g.unspecified j (left j h).1;
      ports = λ j l a b e. g.ports j l (left j a).1 (left l b).1 e;
    }

pub tcp_close-Good : (i : ℕ) (s : Tcp) → GoodIn s → GoodIn (tcp_close i s)
unfolding tcp_close
tcp_close-Good i s g =
    set_inactive-Good (record s { active = erase i s.active }) i
      (record (s.pcbs i) { in_use = false }) (fewer-Good s.pcbs s.active i g)
      (λ j h. (has-erase i j s.active g.distinct h).0) λ used. cc

-- A port that no active PCB has.
FreePort : Tcp → ℕ → Type 0
FreePort s port = (j : ℕ) → has j s.active ≡ true → (s.pcbs j).local.port ≢ port

lookup_none-FreePort :
    (s : Tcp) (port : ℕ)
    → GoodIn s
    → tcp_lookup_local s (record { addr = ipv4_addr_unspecified; port = port }) ≡ none
    → FreePort s port
unfolding tcp_lookup_local matches_local FreePort
lookup_none-FreePort s port g e j h same =
    let away = first-none _ s.active j e h in
    let here = g.unspecified j h in ground (arith, away, here, same)

some-injective : {x y : ℕ} → some x ≡ some y → x ≡ y
some-injective e = cc

find_port-FreePort :
    (rounds : ℕ) (s : Tcp) (from port : ℕ)
    → GoodIn s
    → find_port rounds s from ≡ some port
    → FreePort s port
unfolding find_port
find_port-FreePort zero s from port g e = cc
find_port-FreePort (suc rounds) s from port g e =
    elim (Option-cases
      (tcp_lookup_local s (record { addr = ipv4_addr_unspecified; port = from }))) [
        | inl free ↦
            let this : some from ≡ some port =
              sym (ap (λ o. try_port o from (find_port rounds s)) free) ∙ e in
            lookup_none-FreePort s port g (
              ap (λ (p : ℕ). tcp_lookup_local s (record { addr = ipv4_addr_unspecified; port = p }))
                (some-injective (sym this))
              ∙ free)
        | inr (i, taken) ↦
            find_port-FreePort rounds s (from + 1) port g
              (sym (ap (λ o. try_port o from (find_port rounds s)) taken) ∙ e)
      ]

has-snoc : (i j : ℕ) (xs : List ℕ) → has j (xs ++ i ∷ []) ≡ true → (j ≡ i) ⊎ (has j xs ≡ true)
has-snoc i j xs h = let parts = has-append j xs (i ∷ []) in ground (arith, parts, h)

ports_snoc :
    (pcbs : ℕ → Pcb) (active : List ℕ) (i : ℕ)
    → Good pcbs active
    → ((j : ℕ) → has j active ≡ true → (pcbs j).local.port ≢ (pcbs i).local.port)
    → (j l : ℕ) → has j (active ++ i ∷ []) ≡ true
    → has l (active ++ i ∷ []) ≡ true
    → (pcbs j).local.port ≡ (pcbs l).local.port
    → j ≡ l
ports_snoc pcbs active i g free j l a b e = elim (has-snoc i j active a) [
  | inl x ↦ elim (has-snoc i l active b) [
    | inl y ↦ x ∙ sym y
    | inr old ↦ absurd (free l old (sym e ∙ ap (λ k. (pcbs k).local.port) x))
  ]
  | inr old ↦ elim (has-snoc i l active b) [
    | inl y ↦ absurd (free j old (e ∙ ap (λ k. (pcbs k).local.port) y))
    | inr old' ↦ g.ports j l old old' e
  ]
]

extend-Good :
    (pcbs : ℕ → Pcb) (active : List ℕ) (i : ℕ)
    → Good pcbs active
    → has i active ≡ false
    → (pcbs i).in_use ≡ true
    → (pcbs i).local.addr ≡ ipv4_addr_unspecified
    → ((j : ℕ) → has j active ≡ true → (pcbs j).local.port ≢ (pcbs i).local.port)
    → Good pcbs (active ++ i ∷ [])
extend-Good pcbs active i g absent in_use here free = record {
  flow = g.flow;
  used = λ j h. elim (has-snoc i j active h) [ inl e ↦ rw e in_use | inr old ↦ g.used j old ];
  distinct = append-Distinct i active g.distinct absent;
  unspecified =
      λ j h. elim (has-snoc i j active h) [ inl e ↦ rw e here | inr old ↦ g.unspecified j old ];
  ports = ports_snoc pcbs active i g free;
}

joins-Good :
    (s : Tcp) (i : ℕ) (q : Pcb)
    → GoodIn s
    → has i s.active ≡ false
    → Flow q
    → q.in_use ≡ true
    → q.local.addr ≡ ipv4_addr_unspecified
    → ((j : ℕ) → has j s.active ≡ true → (s.pcbs j).local.port ≢ q.local.port)
    → Good (set_pcb i q s).pcbs (s.active ++ i ∷ [])
joins-Good s i q g absent flow in_use here free =
    let ne : (j : ℕ) → has j s.active ≡ true → j ≢ i =
      (λ j h e. ground (arith, rw e at h, absent)) in
    let self = update_self s.pcbs i q in
    extend-Good (set_pcb i q s).pcbs s.active i (set_inactive-Good s i q g ne (λ _. flow)) absent
      (ap (λ (p : Pcb). p.in_use) self ∙ in_use) (ap (λ (p : Pcb). p.local.addr) self ∙ here)
      λ j h e. free j h (
        sym (ap (λ (p : Pcb). p.local.port) (others_same s i q g ne j h))
        ∙ e
        ∙ ap (λ (p : Pcb). p.local.port) self)

connect_at-Good :
    (i dst_addr dst_port port : ℕ) (s : Tcp)
    → GoodAt i s
    → FreePort s port
    → OnSome GoodIn (connect_at i dst_addr dst_port port s)
unfolding connect_at FreePort
connect_at-Good i dst_addr dst_port port s (g, used) free = elim (Bool-cases (has i s.active)) [
  | inl linked ↦ rw linked tt
  | inr absent ↦ rw absent (
      joins-Good s i _ g absent (same-Flow (s.pcbs i) _ (g.flow i used) refl refl refl) used refl
        free)
]

pub tcp_connect-Good :
    (i dst_addr dst_port : ℕ) (s : Tcp)
    → GoodAt i s
    → OnSome (λ r. GoodIn r.1) (tcp_connect i dst_addr dst_port s)
unfolding tcp_connect
tcp_connect-Good i dst_addr dst_port s (g, used) = elim (Option-cases (find_port 16384 s 49152)) [
  | inl none_left ↦ rw none_left g
  | inr (port, e) ↦ rw e (
      then_some-OnSome (λ r. GoodIn r.1) (connect_at i dst_addr dst_port port s) _
        λ t h. rw h at (
          connect_at-Good i dst_addr dst_port port s (g, used)
            (find_port-FreePort 16384 s 49152 port g e)))
]
