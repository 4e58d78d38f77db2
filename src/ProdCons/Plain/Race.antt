-- ===== src/ProdCons/Plain/Race.antt =====
-- Assignment4/prodcons.c: M[0] is set before M[1].
use operating_systems_lab.Base.{ℕ, ◌%◌, ◌≡◌, refl, arith}
use operating_systems_lab.ProdCons.{over, all_over, done, Shared, choose, consume, start}
use operating_systems_lab.ProdCons.Plain.{
  consumer_step, producer_step, produces, consumes, step, Reach, here, there,
}

-- With one consumer and one item, whatever the item is, there is a run to the end in which the consumer
-- adds the 0 that M[1] held before: its checksum is 0, and the producer's is the item.
pub lost_item :
    (y : ℕ)
    → (s : Shared) × Reach 1 1 s
      × (s.producer ≡ done)
      × (s.place 0 ≡ over)
      × (s.checksum 0 ≡ 0)
      × (s.count 0 ≡ 1)
      × (s.sums 0 ≡ y % 1000)
unfolding start step producer_step consumer_step choose consume all_over
lost_item y = (
  _,
  there (produces 0 y)
      (there (consumes 0)
        (there (produces 0 y)
          (there (produces 0 y)
            (there (produces 0 y)
              (there (consumes 0)
                (there (consumes 0)
                  (there (consumes 0)
                    (there (consumes 0) (there (produces 0 y) (there (produces 0 y) here refl) refl)
                      refl)
                    refl)
                  refl)
                refl)
              refl)
            refl)
          refl)
        refl)
      refl,
  refl,
  refl,
  refl,
  refl,
  omega arith,
)
