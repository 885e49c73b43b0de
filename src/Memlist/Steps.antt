-- ===== src/Memlist/Steps.antt =====
-- One rule for each access to a region object.
use comp304_assignments.Prelude.{ℕ, ◌≡◌, ◌≢◌, some, arith, ◌+◌, ne→not_==}
use comp304_assignments.Machine.{ok}
use comp304_assignments.Memlist.Objects.{
  Region, Objects, Store, update, read, set_next, set_prev, set_range, set_tag, Os, map_failed,
  call_mmap,
}

pub update_self : (o : Objects) (p : ℕ) (r : Region) → update o p r p ≡ some r
unfolding update
update_self o p r = ground arith

pub update_ne : (o : Objects) (p q : ℕ) (r : Region) → q ≢ p → update o p r q ≡ o q
unfolding update
update_ne o p q r h = ground arith

module _ (s : Store) (p : ℕ) (r : Region) (e : s.objects p ≡ some r) where
  pub read-ok : read p s ≡ ok r s
  unfolding read
  read-ok = rw (e, read)

  pub set_next-ok :
      (q : ℕ)
      → set_next p q s ≡ ok tt (record s { objects = update s.objects p (record r { next = q }) })
  unfolding set_next
  set_next-ok q = rw read-ok

  pub set_prev-ok :
      (q : ℕ)
      → set_prev p q s ≡ ok tt (record s { objects = update s.objects p (record r { prev = q }) })
  unfolding set_prev
  set_prev-ok q = rw read-ok

  pub set_range-ok :
      (a b : ℕ)
      → set_range p a b s
        ≡ ok tt (record s { objects = update s.objects p (record r { start = a; end = b }) })
  unfolding set_range
  set_range-ok a b = rw read-ok

  pub set_tag-ok :
      (t : ℕ)
      → set_tag p t s ≡ ok tt (record s { objects = update s.objects p (record r { tag = t }) })
  unfolding set_tag
  set_tag-ok t = rw read-ok

pub call_mmap-ok :
    (os : Os) (s : Store) (len : ℕ)
    → os.mmap s.maps len ≢ map_failed
    → call_mmap os len s ≡ ok (os.mmap s.maps len) (record s { maps = s.maps + 1 })
unfolding call_mmap
call_mmap-ok os s len ne = rw (ne→not_== (os.mmap s.maps len) map_failed ne)
