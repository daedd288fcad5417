-- ===== src/Queue/Fifo.antt =====
-- The linked queue of runtime/src/value.c as a list of messages, the oldest first.
use bonzai.Base.{
  ℕ, ◌≡◌, ◌≢◌, refl, ◌∙◌, ap, inl, inr, true, false, Option, some, List, [], ◌∷◌, ◌++◌, arith, mem,
  ◌==◌, ==_iff, Bool-cases, if◌then◌else◌, subst, sym,
}
use bonzai.Queue.{Node, MessageQueue, put_node, enqueue, dequeue, waits, got}

-- From `p` the `next` fields lead through the distinct messages of the list to NULL.
abbrev pub Linked : (ℕ → Option Node) → ℕ → List ℕ → Type 0
Linked nodes p [] = p ≡ 0
Linked nodes p (q ∷ xs) =
    (p ≡ q)
    × (q ≢ 0)
    × (mem q xs ≡ false)
    × ((n : Node) × (nodes q ≡ some n) × Linked nodes n.next xs)

abbrev pub last : ℕ → List ℕ → ℕ
last d [] = d
last d (x ∷ xs) = last x xs

-- The queue holds the messages at these addresses, the oldest first.
pub record Holds (b : MessageQueue) (xs : List ℕ) : Type 0 where
  pub linked : Linked b.nodes b.head xs
  pub tail : b.tail ≡ last 0 xs

Linked-frame :
    (nodes nodes' : ℕ → Option Node) (p : ℕ) (xs : List ℕ)
    → Linked nodes p xs
    → ((a : ℕ) → mem a xs ≡ true → nodes' a ≡ nodes a)
    → Linked nodes' p xs
Linked-frame nodes nodes' p [] c same = c
Linked-frame nodes nodes' p (q ∷ xs) (e, ne, out, (n, here, rest)) same = (
  e,
  ne,
  out,
  (
    n,
    same q (ground arith) ∙ here,
    Linked-frame nodes nodes' n.next xs rest λ a i. same a (ground arith),
  ),
)

mem-last : (x : ℕ) (xs : List ℕ) → mem (last x xs) (x ∷ xs) ≡ true
mem-last x [] = ground arith
mem-last x (y ∷ ys) = ground (arith, mem-last y ys)

mem-append_last :
    (a msg : ℕ) (xs : List ℕ)
    → mem a xs ≡ false
    → (a == msg) ≡ false
    → mem a (xs ++ msg ∷ []) ≡ false
mem-append_last a msg [] i e = ground arith
mem-append_last a msg (x ∷ xs) i e = ground (arith, mem-append_last a msg xs)

last_node :
    (nodes : ℕ → Option Node) (p x : ℕ) (xs : List ℕ)
    → Linked nodes p (x ∷ xs)
    → (n : Node) × (nodes (last x xs) ≡ some n) × (n.next ≡ 0) × (last x xs ≢ 0)
last_node nodes p x [] (e, ne, out, (n, here, rest)) = (n, here, rest, ne)
last_node nodes p x (y ∷ ys) (e, ne, out, (n, here, rest)) = last_node nodes n.next y ys rest

-- The last message now leads to `msg`, which leads to NULL.
Linked-append :
    (nodes : ℕ → Option Node) (p x : ℕ) (xs : List ℕ) (msg : ℕ) (n fresh : Node)
    → Linked nodes p (x ∷ xs)
    → nodes (last x xs) ≡ some n
    → msg ≢ 0
    → mem msg (x ∷ xs) ≡ false
    → nodes msg ≡ some fresh
    → fresh.next ≡ 0
    → Linked (put_node nodes (last x xs) (record n { next = msg })) p (x ∷ xs ++ msg ∷ [])
Linked-append nodes p x [] msg n fresh (e, ne, out, (k, here, rest)) at nz new there ends = (
  e,
  ne,
  ground arith,
  (record n { next = msg }, ground arith, (refl, nz, refl, (fresh, ground arith, ends))),
)
Linked-append nodes p x (y ∷ ys) msg n fresh (e, ne, out, (k, here, rest)) at nz new there ends = (
  e,
  ne,
  mem-append_last x msg (y ∷ ys) out (ground arith),
  (k, apart, Linked-append nodes k.next y ys msg n fresh rest at nz (ground arith) there ends),
)
  where
    apart : put_node nodes (last y ys) (record n { next = msg }) x ≡ some k
    apart = elim (Bool-cases (last y ys == x)) [
      | inl s ↦
          let inside =
            subst (λ z. mem z (y ∷ ys) ≡ true) ((==_iff (last y ys) x).0 s) (mem-last y ys) in
          cc
      | inr s ↦ rw s here
    ]

-- Every message that was there is there, but for its `next` field.
abbrev pub KeepsMessages : MessageQueue → MessageQueue → Type 0
KeepsMessages b b' =
    (a : ℕ) (n : Node) → b.nodes a ≡ some n → (k : ℕ) × (b'.nodes a ≡ some (record n { next = k }))

last-append : (d x : ℕ) (xs : List ℕ) → last d (xs ++ x ∷ []) ≡ x
last-append d x [] = refl
last-append d x (y ∷ ys) = last-append y x ys

put_node-KeepsMessages :
    (b b' : MessageQueue) (p k : ℕ) (n : Node)
    → b.nodes p ≡ some n
    → b'.nodes ≡ put_node b.nodes p (record n { next = k })
    → KeepsMessages b b'
put_node-KeepsMessages b b' p k n at e a o here = elim (Bool-cases (p == a)) [
  | inl s ↦
      let same : n ≡ o = object s in
      (k, ap (λ f. f a) e ∙ (rw s (ap (λ (x : Node). some (record x { next = k })) same)))
  | inr s ↦ (o.next, ap (λ f. f a) e ∙ (rw s here))
]
  where
    object : (p == a) ≡ true → n ≡ o
    object s = let same = (==_iff p a).0 s in cc

-- For a queue that holds a list of messages, and a message outside it whose `next` is NULL,
-- `enqueue` returns, the queue then holds the list with the new message at its end, and no
-- message has changed but for a `next` field.
pub enqueue_lem :
    (b : MessageQueue) (xs : List ℕ) (msg : ℕ) (fresh : Node)
    → Holds b xs
    → msg ≢ 0
    → mem msg xs ≡ false
    → b.nodes msg ≡ some fresh
    → fresh.next ≡ 0
    → (b' : MessageQueue) × (enqueue b msg ≡ some b')
      × Holds b' (xs ++ msg ∷ [])
      × KeepsMessages b b'
unfolding enqueue
enqueue_lem b [] msg fresh h nz new there ends = (
  record b { head = msg; tail = msg },
  ground arith,
  record { linked = (refl, nz, refl, (fresh, there, ends)); tail = refl },
  λ a n e. (n.next, e),
)
enqueue_lem b (x ∷ xs) msg fresh h nz new there ends =
    let (n, at, _, ne) = last_node b.nodes b.head x xs h.linked in
    let b' : MessageQueue = record b {
      nodes = put_node b.nodes (last x xs) (record n { next = msg });
      tail = msg;
    } in
    (
      b',
      ground arith,
      record {
        linked = Linked-append b.nodes b.head x xs msg n fresh h.linked at nz new there ends;
        tail = sym (last-append x msg xs);
      },
      put_node-KeepsMessages b b' (last x xs) msg n at refl,
    )

-- What `dequeue` does on a queue that holds these messages.
abbrev pub Dequeues : List ℕ → MessageQueue → Type 0
Dequeues [] b = dequeue b ≡ waits
Dequeues (x ∷ xs) b =
    (b' : MessageQueue) × (dequeue b ≡ got x b') × Holds b' xs × (b'.nodes ≡ b.nodes)

-- `dequeue` waits exactly on the empty queue; on any other it takes the oldest message, and the
-- queue holds the others in their order, none of them changed.
pub dequeue_lem : (b : MessageQueue) (xs : List ℕ) → Holds b xs → Dequeues xs b
unfolding dequeue
dequeue_lem b [] h = ground arith
dequeue_lem b (x ∷ []) h =
    let (e, ne, out, (n, at, rest)) = h.linked in
    (
      record b { head = n.next; tail = if n.next == 0 then 0 else b.tail },
      ground arith,
      record { linked = rest; tail = ground arith },
      refl,
    )
dequeue_lem b (x ∷ y ∷ ys) h =
    let (e, ne, out, (n, at, rest)) = h.linked in
    (
      record b { head = n.next; tail = if n.next == 0 then 0 else b.tail },
      ground arith,
      record { linked = rest; tail = later n rest },
      refl,
    )
  where
    later :
        (n : Node)
        → Linked b.nodes n.next (y ∷ ys)
        → (if n.next == 0 then 0 else b.tail) ≡ last y ys
    later n rest = let out : (n.next == 0) ≡ false = ground arith in rw out h.tail
