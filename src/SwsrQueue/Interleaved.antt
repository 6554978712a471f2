-- ===== src/SwsrQueue/Interleaved.antt =====
-- One writer and one reader of the ring at the same time, a shared access at a time, in any order.
-- The writer runs `qswsrqueue_enqueue` and the reader `qswsrqueue_dequeue` of src/ds/qswsrqueue.c.
use qthreads.SwsrQueue.{Ring, next}
use qthreads.Prelude.{ℕ, ◌≢◌, List, [], ◌∷◌, ◌++◌, update}

-- Where the writer stands: before its test, before the store of the element, before the store of
-- the tail.
pub data Writer : Type 0 where
  outside : Writer
  tested : ℕ → Writer
  stored : ℕ → Writer

-- Where the reader stands: before its test, before the load, before the store of the head.
pub data Reader : Type 0 where
  outside : Reader
  tested : Reader
  loaded : ℕ → Reader

-- `sent` and `received` are the elements of the calls that have returned success.
pub record System : Type 0 where
  pub ring : Ring
  pub writer : Writer
  pub reader : Reader
  pub sent : List ℕ
  pub received : List ℕ

abbrev pub published : Ring → Ring
published q = record q { tail = next q.tail q.size }

abbrev pub advanced : Ring → Ring
advanced q = record q { head = next q.head q.size }

abbrev pub filled : Ring → ℕ → Ring
filled q x = record q { elements = update q.elements q.tail x }

pub data Step : System → System → Type 0 where
  test_tail :
      (q : Ring) (x : ℕ) (r : Reader) (s t : List ℕ)
      → next q.tail q.size ≢ q.head
      → Step
          (record { ring = q; writer = Writer.outside; reader = r; sent = s; received = t })
          (record { ring = q; writer = Writer.tested x; reader = r; sent = s; received = t })
  store_element :
      (q : Ring) (x : ℕ) (r : Reader) (s t : List ℕ)
      → Step
          (record { ring = q; writer = Writer.tested x; reader = r; sent = s; received = t })
          (record {
            ring = filled q x;
            writer = Writer.stored x;
            reader = r;
            sent = s;
            received = t;
          })
  store_tail :
      (q : Ring) (x : ℕ) (r : Reader) (s t : List ℕ)
      → Step
          (record { ring = q; writer = Writer.stored x; reader = r; sent = s; received = t })
          (record {
            ring = published q;
            writer = Writer.outside;
            reader = r;
            sent = s ++ x ∷ [];
            received = t;
          })
  test_head :
      (q : Ring) (w : Writer) (s t : List ℕ)
      → q.head ≢ q.tail
      → Step
          (record { ring = q; writer = w; reader = Reader.outside; sent = s; received = t })
          (record { ring = q; writer = w; reader = Reader.tested; sent = s; received = t })
  load_element :
      (q : Ring) (w : Writer) (s t : List ℕ)
      → Step
          (record { ring = q; writer = w; reader = Reader.tested; sent = s; received = t })
          (record {
            ring = q;
            writer = w;
            reader = Reader.loaded (q.elements q.head);
            sent = s;
            received = t;
          })
  store_head :
      (q : Ring) (w : Writer) (x : ℕ) (s t : List ℕ)
      → Step
          (record { ring = q; writer = w; reader = Reader.loaded x; sent = s; received = t })
          (record {
            ring = advanced q;
            writer = w;
            reader = Reader.outside;
            sent = s;
            received = t ++ x ∷ [];
          })

pub data Reach (q : Ring) : System → Type 0 where
  start : Reach q (record {
    ring = q;
    writer = Writer.outside;
    reader = Reader.outside;
    sent = [];
    received = [];
  })
  later : {a b : System} → Reach q a → Step a b → Reach q b
