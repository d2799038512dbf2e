-- ===== src/Examples/Hostile.antt =====
-- The theorems on texts that are too long and on messages that are too short, applied.
use moveon.Base.{
  ℕ, zero, suc, ◌≡◌, ◌≢◌, refl, [], ◌∷◌, Bytes, length, length-append, take, u16, ok, undefined,
  arith, codes, inl, some,
}
use moveon.Base.Int.{pos}
use moveon.Message.Layout.{req}
use moveon.Message.Read.{found}
use moveon.Message.ReadExh.{get_exh_payload}
use moveon.Message.Parts.{ExhPart, Sizes, exh_block}
use moveon.Message.ReadLaws.{length-exh_block}
use moveon.Message.Carries.{delivered}
use moveon.Message.Truncated.{first_text-truncated}
use moveon.Service.Mgr.{Call}
use moveon.Pool.World.{new_world}
use moveon.Server.State.{new_server, on_message}
use moveon.Server.Hostile.{on_message-undefined}
use moveon.Examples.Samples.{zeros, plain_json}

-- A text of `n` bytes 65, kept shut since it is long.
repeated : ℕ → Bytes
repeated zero = []
repeated (suc n) = 65 ∷ repeated n

length-repeated : (n : ℕ) → length (repeated n) ≡ n
unfolding repeated
length-repeated zero = refl
length-repeated (suc n) = omega (arith, length-repeated n)

long_exh : ExhPart
long_exh = record { type = 1; pad_0 = 0; pad_1 = 0; text = repeated 65540 }

long-length : length long_exh.text ≡ 65540
unfolding long_exh
long-length = length-repeated 65540

long-Sizes : Sizes (long_exh ∷ []) []
long-Sizes = record {
  exhs_fit = omega arith;
  opts_fit = omega arith;
  total_fits =
      omega (arith, length-append (exh_block long_exh) [], length-exh_block long_exh, long-length);
}

first_text-truncated_example :
    (get_exh_payload (delivered zeros zeros (long_exh ∷ []) [] req 1) (pos 0)
      ≡ ok (found (take (u16 (length long_exh.text)) long_exh.text)))
    × (take (u16 (length long_exh.text)) long_exh.text ≢ long_exh.text)
first_text-truncated_example =
    first_text-truncated zeros zeros long_exh [] [] req 1 (omega arith) long-Sizes
      (omega (arith, long-length))

on_message-undefined_example :
    on_message plain_json []
      (some (record { address = 1; remote = [] }))
      []
      (codes "hello")
      new_server
      (new_world Call)
    ≡ undefined
on_message-undefined_example =
    on_message-undefined plain_json [] (record { address = 1; remote = [] }) [] (codes "hello")
      new_server (new_world Call) (inl (omega arith))
