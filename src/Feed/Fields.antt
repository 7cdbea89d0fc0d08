-- ===== src/Feed/Fields.antt =====
-- Messages whose numbers are not negative: the form in which the generators fill them in.
use quant_feed_handler.Base.{ℕ, ◌^◌, ◌<◌, false, ◌≡◌, refl, ◌==◌, ◌&&◌, not, arith}
use quant_feed_handler.Base.Int.{pos}
use quant_feed_handler.Protocol.{of_add, of_cancel, of_exec}
use quant_feed_handler.Validator.Written.{Good, of_add-Good, of_cancel-Good, of_exec-Good}

module _ (seq time id : ℕ) (seq_fits : seq < 2 ^ 64) (time_fits : time < 2 ^ 64)
    (id_fits : id < 2 ^ 64) where
  pub add_fields-Good :
      (side price quantity : ℕ)
      → side < 256
      → not (side == b'B') && not (side == b'S') ≡ false
      → 0 < price
      → price < 2 ^ 31
      → 0 < quantity
      → quantity < 2 ^ 31
      → Good seq (
          of_add (record {
            msg_type = b'A';
            seq_no = seq;
            timestamp_ns = time;
            order_id = id;
            side = side;
            price = pos price;
            quantity = pos quantity;
          }))
  add_fields-Good side price quantity side_fits sided some_price price_fits some_quantity fits =
      of_add-Good _
        (record {
          type_fits = omega arith;
          seq_fits = seq_fits;
          time_fits = time_fits;
          id_fits = id_fits;
          side_fits = side_fits;
          price_fits = ground arith;
          quantity_fits = ground arith;
        })
        refl sided (ground arith)

  pub cancel_fields-Good :
      (quantity : ℕ)
      → quantity < 2 ^ 31
      → Good seq (
          of_cancel (record {
            msg_type = b'X';
            seq_no = seq;
            timestamp_ns = time;
            order_id = id;
            quantity = pos quantity;
          }))
  cancel_fields-Good quantity fits =
      of_cancel-Good _
        (record {
          type_fits = omega arith;
          seq_fits = seq_fits;
          time_fits = time_fits;
          id_fits = id_fits;
          quantity_fits = ground arith;
        })
        refl (ground arith)

  pub exec_fields-Good :
      (quantity price : ℕ)
      → 0 < quantity
      → quantity < 2 ^ 31
      → 0 < price
      → price < 2 ^ 31
      → Good seq (
          of_exec (record {
            msg_type = b'E';
            seq_no = seq;
            timestamp_ns = time;
            order_id = id;
            exec_quantity = pos quantity;
            match_price = pos price;
          }))
  exec_fields-Good quantity price some_quantity fits some_price price_fits =
      of_exec-Good _
        (record {
          type_fits = omega arith;
          seq_fits = seq_fits;
          time_fits = time_fits;
          id_fits = id_fits;
          quantity_fits = ground arith;
          price_fits = ground arith;
        })
        refl (ground arith)
