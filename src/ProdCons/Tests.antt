-- ===== src/ProdCons/Tests.antt =====
-- Assignment4: the theorems at runs with one consumer and one item.
use operating_systems_lab.Base.{◌%◌, ◌≡◌, refl, true, arith, is_some, or_else, is_some-or_else}
use operating_systems_lab.ProdCons.{over, done, Shared, choose, consume, all_over, start}
use operating_systems_lab.ProdCons.Plain
use operating_systems_lab.ProdCons.Plain.Counts.{counts_agree}
use operating_systems_lab.ProdCons.Plain.Race.{lost_item}
use operating_systems_lab.ProdCons.Locked.{
  Actor, produces, consumes, step, producer_step, consumer_step, Reach, here, there,
}
use operating_systems_lab.ProdCons.Locked.Safety.{checksums_agree}

-- What prodcons.c can print for the item 345.
abbrev lossy : Shared
lossy = (lost_item 345).0

lost_item_example :
    (s : Shared) × Plain.Reach 1 1 s
    × (s.producer ≡ done)
    × (s.place 0 ≡ over)
    × (s.checksum 0 ≡ 0)
    × (s.count 0 ≡ 1)
    × (s.sums 0 ≡ 345 % 1000)
lost_item_example = lost_item 345

counts_agree_example :
    ((lost_item 345).0.place 0 ≡ over) × ((lost_item 345).0.count 0 ≡ (lost_item 345).0.counts 0)
counts_agree_example = counts_agree (lost_item 345).1 (lost_item 345).2 0 (omega arith)

-- A run of prodconsV2.c.
abbrev go : Actor → Shared → Shared
go a s = or_else (step 1 1 a s) s

abbrev item_out : Shared
item_out = go (produces 4 2345) (
    go (produces 4 2345) (go (produces 4 2345) (go (produces 4 2345) (go (produces 4 2345) start))))

abbrev item_in : Shared
item_in = go (consumes 0) (
    go (consumes 0)
      (go (consumes 0) (go (consumes 0) (go (consumes 0) (go (consumes 0) item_out)))))

abbrev ended : Shared
ended = go (produces 0 0) (go (consumes 0) (go (produces 0 0) (go (produces 0 0) item_in)))

onto : {s : Shared} (a : Actor) → Reach 1 1 s → is_some (step 1 1 a s) ≡ true → Reach 1 1 (go a s)
onto {s} a so_far e = there a so_far (is_some-or_else (step 1 1 a s) s e)

ended_Reach : Reach 1 1 ended
unfolding start step producer_step consumer_step choose consume all_over
ended_Reach =
    onto (produces 0 0)
      (onto (consumes 0)
        (onto (produces 0 0)
          (onto (produces 0 0)
            (onto (consumes 0)
              (onto (consumes 0)
                (onto (consumes 0)
                  (onto (consumes 0)
                    (onto (consumes 0)
                      (onto (consumes 0)
                        (onto (produces 4 2345)
                          (onto (produces 4 2345)
                            (onto (produces 4 2345)
                              (onto (produces 4 2345) (onto (produces 4 2345) here refl) refl) refl)
                            refl)
                          refl)
                        refl)
                      refl)
                    refl)
                  refl)
                refl)
              refl)
            refl)
          refl)
        refl)
      refl

checksums_agree_example :
    (ended.place 0 ≡ over) × (ended.checksum 0 ≡ ended.sums 0) × (ended.count 0 ≡ ended.counts 0)
unfolding start step producer_step consumer_step choose consume all_over
checksums_agree_example = checksums_agree ended_Reach refl 0 (omega arith)

-- The consumer has read 2345 % 1000.
ended_checksum : ended.checksum 0 ≡ 345
unfolding start step producer_step consumer_step choose consume all_over
ended_checksum = refl
