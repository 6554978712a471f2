-- ===== src/SwsrQueue/Fifo.antt =====
-- What holds between the accesses of the writer and the reader of src/ds/qswsrqueue.c, and the
-- order in which the elements arrive.
use qthreads.SwsrQueue.Interleaved.{
  Writer, Reader, System, published, advanced, filled, Step, test_tail, store_element, store_tail,
  test_head, load_element, store_head, Reach, start, later,
}
use qthreads.SwsrQueue.{Ring, next}
use qthreads.SwsrQueue.Contents.{
  IsValid, next-after, contents, distance, walk, walk-update, walk-snoc,
}
use qthreads.SwsrQueue.Laws.{next-lt, pop-contents, empty-contents}
use mathlib.Core.List.{append_assoc}
use qthreads.Prelude.{
  ℕ, ◌≡◌, ◌≢◌, refl, sym, ◌∙◌, ap, [], ◌∷◌, ◌++◌, update_same, update_ne, arith, suc,
}

-- What each side knows between its accesses.
abbrev pub WriterKnows : Ring → Writer → Type 0
WriterKnows q Writer.outside = Unit {0}
WriterKnows q (Writer.tested x) = next q.tail q.size ≢ q.head
WriterKnows q (Writer.stored x) = (next q.tail q.size ≢ q.head) × (q.elements q.tail ≡ x)

abbrev pub ReaderKnows : Ring → Reader → Type 0
ReaderKnows q Reader.outside = Unit {0}
ReaderKnows q Reader.tested = q.head ≢ q.tail
ReaderKnows q (Reader.loaded x) = (q.head ≢ q.tail) × (q.elements q.head ≡ x)

pub record Inv (a : System) : Type 0 where
  pub valid : IsValid a.ring
  pub fifo : a.sent ≡ a.received ++ contents a.ring
  pub writer_knows : WriterKnows a.ring a.writer
  pub reader_knows : ReaderKnows a.ring a.reader

filled-contents : (q : Ring) (x : ℕ) → IsValid q → contents (filled q x) ≡ contents q
unfolding contents
filled-contents q x v =
    walk-update (distance q.head q.tail q.size) q.head q.tail q.size x q.elements v.head_fits
      v.tail_fits refl

published-contents :
    (q : Ring)
    → IsValid q
    → next q.tail q.size ≢ q.head
    → contents (published q) ≡ contents q ++ q.elements q.tail ∷ []
unfolding contents
published-contents q v room =
    let d = distance q.head q.tail q.size in
    let n = next-after q.tail q.size v.tail_fits v.narrow in
    let longer : distance q.head (next q.tail q.size) q.size ≡ suc d =
      ground (arith, n, v.head_fits, v.tail_fits, room) in
    ap (λ k. walk k q.head q.size q.elements) longer
    ∙ walk-snoc d q.head q.tail q.size q.elements v.head_fits v.tail_fits refl

filled-ReaderKnows : (q : Ring) (x : ℕ) (r : Reader) → ReaderKnows q r → ReaderKnows (filled q x) r
filled-ReaderKnows q x Reader.outside k = k
filled-ReaderKnows q x Reader.tested k = k
filled-ReaderKnows q x (Reader.loaded y) (apart, at) =
    (apart, update_ne q.elements q.tail q.head x (λ e. apart (sym e)) ∙ at)

published-ReaderKnows :
    (q : Ring) (r : Reader)
    → next q.tail q.size ≢ q.head
    → ReaderKnows q r
    → ReaderKnows (published q) r
published-ReaderKnows q Reader.outside room k = k
published-ReaderKnows q Reader.tested room k = λ e. room (sym e)
published-ReaderKnows q (Reader.loaded y) room (apart, at) = ((λ e. room (sym e)), at)

-- The writer's free slot stays free when the head moves on.
advanced_room : (q : Ring) → IsValid q → q.head ≢ q.tail → next q.tail q.size ≢ next q.head q.size
advanced_room q v apart =
    rw
      (next-after q.tail q.size v.tail_fits v.narrow, next-after q.head q.size v.head_fits v.narrow)
      (ground (arith, v.head_fits, v.tail_fits, apart))

advanced-WriterKnows :
    (q : Ring) (w : Writer)
    → IsValid q
    → q.head ≢ q.tail
    → WriterKnows q w
    → WriterKnows (advanced q) w
advanced-WriterKnows q Writer.outside v apart k = k
advanced-WriterKnows q (Writer.tested x) v apart k = advanced_room q v apart
advanced-WriterKnows q (Writer.stored x) v apart (room, at) = (advanced_room q v apart, at)

Step-Inv : {a b : System} → Step a b → Inv a → Inv b
Step-Inv (test_tail q x r s t room) i = record {
  valid = i.valid;
  fifo = i.fifo;
  writer_knows = room;
  reader_knows = i.reader_knows;
}
Step-Inv (store_element q x r s t) i =
    let v = i.valid in
    record {
      valid = record {
        narrow = v.narrow;
        head_fits = v.head_fits;
        tail_fits = v.tail_fits;
        copies = v.copies;
      };
      fifo = i.fifo ∙ ap (λ l. t ++ l) (sym (filled-contents q x v));
      writer_knows = (i.writer_knows, update_same q.elements q.tail x);
      reader_knows = filled-ReaderKnows q x r i.reader_knows;
    }
Step-Inv (store_tail q x r s t) i =
    let v = i.valid in
    let room = i.writer_knows.0 in
    record {
      valid = record {
        narrow = v.narrow;
        head_fits = v.head_fits;
        tail_fits = next-lt q.tail q.size v.tail_fits v.narrow;
        copies = v.copies;
      };
      fifo =
          ap (λ l. l ++ x ∷ []) i.fifo
          ∙ append_assoc t (contents q) (x ∷ [])
          ∙ ap (λ k. t ++ (contents q ++ k ∷ [])) (sym i.writer_knows.1)
          ∙ ap (λ l. t ++ l) (sym (published-contents q v room));
      writer_knows = tt;
      reader_knows = published-ReaderKnows q r room i.reader_knows;
    }
Step-Inv (test_head q w s t some_left) i = record {
  valid = i.valid;
  fifo = i.fifo;
  writer_knows = i.writer_knows;
  reader_knows = some_left;
}
Step-Inv (load_element q w s t) i = record {
  valid = i.valid;
  fifo = i.fifo;
  writer_knows = i.writer_knows;
  reader_knows = (i.reader_knows, refl);
}
Step-Inv (store_head q w x s t) i =
    let v = i.valid in
    let apart = i.reader_knows.0 in
    record {
      valid = record {
        narrow = v.narrow;
        head_fits = next-lt q.head q.size v.head_fits v.narrow;
        tail_fits = v.tail_fits;
        copies = v.copies;
      };
      fifo =
          i.fifo
          ∙ ap (λ l. t ++ l) (pop-contents q v apart)
          ∙ ap (λ k. t ++ k ∷ contents (advanced q)) i.reader_knows.1
          ∙ sym (append_assoc t (x ∷ []) (contents (advanced q)));
      writer_knows = advanced-WriterKnows q w v apart i.writer_knows;
      reader_knows = tt;
    }

Reach-Inv : {q : Ring} {a : System} → IsValid q → q.head ≡ q.tail → Reach q a → Inv a
Reach-Inv {q = q} v h start = record {
  valid = v;
  fifo = sym (empty-contents q h);
  writer_knows = tt;
  reader_knows = tt;
}
Reach-Inv v h (later r s) = Step-Inv s (Reach-Inv v h r)

-- However the accesses of one writer and one reader interleave, from a valid ring whose head equals
-- its tail: the elements of the enqueues that returned success are those that the dequeues have
-- returned, in the same order, followed by the contents of the ring.
pub Reach-fifo :
    {q : Ring} {a : System}
    → IsValid q
    → q.head ≡ q.tail
    → Reach q a
    → a.sent ≡ a.received ++ contents a.ring
Reach-fifo v h r = (Reach-Inv v h r).fifo
