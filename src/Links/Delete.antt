-- ===== src/Links/Delete.antt =====
-- `list_empty`, `list_first` and `list_del` of include/list.h against sequences.
use ze_ospi.Base.{◌≡◌, sym, ◌≢◌, true, false, List, [], ◌∷◌, arith, All}
use ze_ospi.Links.{Ptr, Links, list_del, list_empty, list_first}
use ze_ospi.Links.Chain.{Apart, IsQueue, Chain-frame}

-- What `list_del` does to the entries that are neither deleted nor its neighbours.
list_del-next : (h : Links) (x a : Ptr) → a ≢ x → a ≢ h.prev x → (list_del x h).next a ≡ h.next a
unfolding list_del
list_del-next h x a p q = ground arith

list_del-prev : (h : Links) (x a : Ptr) → a ≢ x → a ≢ h.next x → (list_del x h).prev a ≡ h.prev a
unfolding list_del
list_del-prev h x a p q = ground arith

kept :
    (h : Links) (x p n : Ptr) (xs : List Ptr)
    → h.prev x ≡ p
    → h.next x ≡ n
    → Apart x xs
    → Apart p xs
    → Apart n xs
    → All (λ y. ((list_del x h).next y ≡ h.next y) × ((list_del x h).prev y ≡ h.prev y)) xs
kept h x p n [] ep en a b c = tt
kept h x p n (y ∷ ys) ep en a b c = (
  (
    list_del-next h x y (λ e. a.0 (sym e)) (rw ep (λ e. b.0 (sym e))),
    list_del-prev h x y (λ e. a.0 (sym e)) (rw en (λ e. c.0 (sym e))),
  ),
  kept h x p n ys ep en a.1 b.1 c.1,
)

-- `list_empty` tells the empty queue from the others, and `list_first` gives the first entry.
pub list_empty_lem :
    {h : Links} {head : Ptr} {xs : List Ptr}
    → IsQueue h head xs
    → list_empty head h ≡ elim xs [ [] ↦ true | _ ∷ _ ↦ false ]
unfolding list_empty
list_empty_lem {xs = []} q = ground arith
list_empty_lem {xs = x ∷ xs} q = ground arith

-- The fields that `list_del` writes, for an entry `x` between the distinct `p` and `n`.
list_del-links :
    (h : Links) (x p n : Ptr)
    → h.prev x ≡ p
    → h.next x ≡ n
    → x ≢ p
    → x ≢ n
    → let g = list_del x h in (g.next p ≡ n) × (g.prev n ≡ p) × (g.next x ≡ 0) × (g.prev x ≡ 0)
unfolding list_del
list_del-links h x p n ep en a b = ground arith

-- `list_del` of the first entry leaves the rest of the queue, and clears the entry's fields.
pub list_del-list_first :
    {h : Links} {head x : Ptr} {xs : List Ptr}
    → IsQueue h head (x ∷ xs)
    → let g = list_del (list_first head h) h in IsQueue g head xs × (g.next x ≡ 0) × (g.prev x ≡ 0)
list_del-list_first {h} {head} {x} {xs = []} q =
    let l =
      list_del-links h x head head q.chain.1 q.chain.2.0 (λ e. q.apart.0 (sym e))
        (λ e. q.apart.0 (sym e)) in
    rw q.chain.0 (record { chain = (l.0, l.1); apart = tt; distinct = tt }, l.2, l.3)
list_del-list_first {h} {head} {x} {xs = y ∷ ys} q =
    let p = q.chain.1 in
    let n = q.chain.2.0 in
    let l = list_del-links h x head y p n (λ e. q.apart.0 (sym e)) q.distinct.0.0 in
    rw q.chain.0 (
      record {
        chain = (
          l.0,
          l.1,
          Chain-frame h (list_del x h) y ys head q.chain.2.2
              (list_del-next h x y (λ e. q.distinct.0.0 (sym e)) (rw p (λ e. q.apart.1.0 (sym e))))
              (kept h x head y ys p n q.distinct.0.1 q.apart.1.1 q.distinct.1.0)
              (list_del-prev h x head q.apart.0 (rw n q.apart.1.0)),
        );
        apart = q.apart.1;
        distinct = q.distinct.1;
      },
      l.2,
      l.3,
    )

-- Deleting the first entry of one queue leaves a queue alone that shares nothing with it.
pub list_del-frame :
    {h : Links} {head x other : Ptr} {xs ys : List Ptr}
    → IsQueue h head (x ∷ xs)
    → IsQueue h other ys
    → All (λ a. Apart a (other ∷ ys)) (head ∷ x ∷ xs)
    → IsQueue (list_del x h) other ys
list_del-frame {h} {head} {x} {other} {xs = []} {ys} q r d = record {
  chain =
      Chain-frame h (list_del x h) other ys other r.chain
        (list_del-next h x other (λ e. d.1.0.0 (sym e)) (rw q.chain.1 (λ e. d.0.0 (sym e))))
        (kept h x head head ys q.chain.1 q.chain.2.0 d.1.0.1 d.0.1 d.0.1)
        (list_del-prev h x other (λ e. d.1.0.0 (sym e)) (rw q.chain.2.0 (λ e. d.0.0 (sym e))));
  apart = r.apart;
  distinct = r.distinct;
}
list_del-frame {h} {head} {x} {other} {xs = y ∷ xs} {ys} q r d = record {
  chain =
      Chain-frame h (list_del x h) other ys other r.chain
        (list_del-next h x other (λ e. d.1.0.0 (sym e)) (rw q.chain.1 (λ e. d.0.0 (sym e))))
        (kept h x head y ys q.chain.1 q.chain.2.0 d.1.0.1 d.0.1 d.1.1.0.1)
        (list_del-prev h x other (λ e. d.1.0.0 (sym e)) (rw q.chain.2.0 (λ e. d.1.1.0.0 (sym e))));
  apart = r.apart;
  distinct = r.distinct;
}
