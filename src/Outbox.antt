-- ===== src/Outbox.antt =====
-- src/Outbox.h: the singly linked queue with its builtin cursor, over an explicit heap of nodes
-- (the build without the memory pool). A pointer is a number and `nullptr` is 0. An operation
-- returns `none` where the C++ code would read or write through a pointer that holds no node. The
-- address that `new(std::nothrow)` returns is an argument, 0 when it fails.
pub mod Queue
pub mod Chain
pub mod Repr
pub mod Insert
pub mod InsertFront
pub mod Bypass
pub mod Unlink
pub mod Remove
pub mod Iterate
pub mod RemoveNth
pub mod Run
use esp_mqtt_client.Prelude.{
  ℕ, suc, ◌+◌, zero, Bool, true, false, Option, none, some, ◌>>=◌, ◌==◌, if◌then◌else◌, not,
}

abbrev pub Ptr : Type 0
Ptr = ℕ

abbrev pub null : Ptr
null = 0

-- Outbox::Node
pub record Node {ℓ} (A : Type ℓ) : Type ℓ where
  pub value : A
  pub next : Ptr

module _ {ℓ} {A : Type ℓ} where
  abbrev pub node : A → Ptr → Node A
  node x q = record { value = x; next = q }

  abbrev pub update : (Ptr → Option (Node A)) → Ptr → Option (Node A) → Ptr → Option (Node A)
  update cell p c a = if a == p then c else cell a

-- The fields of the class, and the memory that its nodes live in.
pub record Outbox {ℓ} (A : Type ℓ) : Type ℓ where
  pub cell : Ptr → Option (Node A)
  pub first : Ptr
  pub last : Ptr
  pub current : Ptr
  pub prev : Ptr

-- Outbox::Iterator; `operator bool` is the test that `node` is not null.
pub record Iterator : Type 0 where
  pub node : Ptr
  pub prev : Ptr

module _ {ℓ} {A : Type ℓ} where
  -- `*p`
  unfoldable pub load : (Ptr → Option (Node A)) → Ptr → Option (Node A)
  load cell p = if p == null then none else cell p

  -- `p->next = q`
  unfoldable pub set_next : (Ptr → Option (Node A)) → Ptr → Ptr → Option (Ptr → Option (Node A))
  set_next cell p q = do n ← load cell p; some (update cell p (some (node n.value q)))

  unfoldable pub new_outbox : (Ptr → Option (Node A)) → Outbox A
  new_outbox cell = record { cell = cell; first = null; last = null; current = null; prev = null }

  -- Iterator::operator++
  unfoldable pub advance : Outbox A → Iterator → Option Iterator
  unfolding load
  advance o it =
      if it.node == null
      then some it
      else (do n ← load o.cell it.node; some (record { node = n.next; prev = it.node }))

  -- Iterator::get, for an iterator that is not at the end
  unfoldable pub get : Outbox A → Iterator → Option A
  unfolding load
  get o it = do n ← load o.cell it.node; some n.value

  -- The part of emplace behind a successful allocation.
  link_back : Ptr → Outbox A → Option (Outbox A × Iterator)
  unfolding set_next
  link_back fresh o =
      if o.first == null
      then some (
        record o { first = fresh; current = fresh; last = fresh },
        record { node = fresh; prev = null },
      )
      else (do
        cell ← set_next o.cell o.last fresh
        some (
          record o {
            cell = cell;
            last = fresh;
            current = if o.current == null then fresh else o.current;
          },
          record { node = fresh; prev = o.last },
        ))

  unfoldable pub emplace : Ptr → A → Outbox A → Option (Outbox A × Iterator)
  unfolding link_back
  emplace fresh x o =
      if fresh == null
      then some (o, record { node = null; prev = null })
      else link_back fresh (record o { cell = update o.cell fresh (some (node x null)) })

  unfoldable pub emplace_front : Ptr → A → Outbox A → Option (Outbox A × Iterator)
  emplace_front fresh x o =
      if fresh == null
      then some (o, record { node = null; prev = null })
      else some (
        record o {
          cell = update o.cell fresh (some (node x (if o.first == null then null else o.first)));
          last = if o.first == null then fresh else o.last;
          first = fresh;
          current = fresh;
          prev = null;
        },
        record { node = fresh; prev = null },
      )

  -- The four ways to unlink the node at `node`, whose successor is `next`.
  unlink : (prev node next : Ptr) → Outbox A → Option (Outbox A)
  unfolding set_next
  unlink prev node next o =
      if o.first == o.last
      then some (record o { first = null; last = null })
      else if o.first == node
      then some (record o { first = next })
      else if o.last == node
      then (do cell ← set_next o.cell prev null; some (record o { last = prev; cell = cell }))
      else (do cell ← set_next o.cell prev next; some (record o { cell = cell }))

  -- Outbox::_remove
  unfoldable pub remove_node : (prev node : Ptr) → Outbox A → Option (Outbox A)
  unfolding unlink load
  remove_node prev node o = if node == null then some o else (do
    n ← load o.cell node
    o' ← unlink prev node n.next (record o {
      current = if o.current == node then n.next else o.current;
      prev = if o.prev == node then prev else o.prev;
    })
    some (record o' { cell = update o'.cell node none }))

  -- Outbox::remove
  unfoldable pub remove : Outbox A → Iterator → Option (Outbox A × Iterator)
  unfolding load
  remove o it = if it.node == null then some (o, it) else (do
    n ← load o.cell it.node
    o' ← remove_node it.prev it.node o
    some (o', record { node = n.next; prev = it.prev }))

  unfoldable pub remove_current : Outbox A → Option (Outbox A)
  remove_current o = remove_node o.prev o.current o

  -- Outbox::getCurrent: the outer option is the fault, the inner one is `nullptr`.
  unfoldable pub get_current : Outbox A → Option (Option A)
  unfolding load
  get_current o =
      if o.current == null then some none else (do n ← load o.cell o.current; some (some n.value))

  unfoldable pub reset_current : Outbox A → Outbox A
  reset_current o = record o { current = o.first }

  unfoldable pub front : Outbox A → Iterator
  front o = record { node = o.first; prev = null }

  -- Outbox::next
  unfoldable pub next_current : Outbox A → Option (Outbox A)
  unfolding load
  next_current o =
      if o.current == null
      then some o
      else (do n ← load o.cell o.current; some (record o { prev = o.current; current = n.next }))

  unfoldable pub empty : Outbox A → Bool
  empty o = o.first == null

  -- The loop of Outbox::size over the nodes from `p` on; `none` also when the fuel runs out.
  unfoldable pub size_loop : ℕ → (Ptr → Option (Node A)) → Ptr → ℕ → Option ℕ
  unfolding load
  size_loop fuel cell zero count = some count
  size_loop zero cell (suc p) count = none
  size_loop (suc fuel) cell (suc p) count = do
    n ← load cell (suc p)
    size_loop fuel cell n.next (count + 1)
