-- ===== src/Client/Constants.antt =====
-- src/constants.rs: the addresses and discriminators that the client writes into its routes. A key
-- is the value of its base58 text, as a big-endian number.
use solana_atomic_arbitrage.Base.{ℕ, List, [], ◌∷◌}
use solana_atomic_arbitrage.Router.Types.{Pubkey}

abbrev pub cpmm_program : Pubkey
cpmm_program = 0xa92a5a8b4f295952842550aa93fd5b95b5ace6a8eb920c93942e43690c20ec73

abbrev pub pumpfun_amm_program : Pubkey
pumpfun_amm_program = 0xc14defc825ec67694250818bb654065f4298d3156d571b4d4f8090c18e9a863

abbrev pub dlmm_program : Pubkey
dlmm_program = 0x4e9e12fbc84e826c932cce9e2640cce15590c1c6273b0925708ba3b8520b0bc

abbrev pub token_program : Pubkey
token_program = 0x6ddf6e1d765a193d9cbe146ceeb79ac1cb485ed5f5b37913a8cf5857eff00a9

abbrev pub token22_program : Pubkey
token22_program = 0x6ddf6e1ee758fde18425dbce46ccddab61afc4d83b90d27febdf928d8a18bfc

abbrev pub memo_program : Pubkey
memo_program = 0x54a535a992921064d24e87160da387c7c35b5ddbc92bb81e41fa8404105448d

abbrev pub ata_program : Pubkey
ata_program = 0x8c97258f4e2489f1bb3d1029148e0d830b5a1399daff1084048e7bd8dbe9f859

abbrev pub whirlpool_program : Pubkey
whirlpool_program = 0xe03685f8e909053e458121c66f5a76aedc7706aa11c82f8aa952a8f2b7879a9

abbrev pub native_sol_mint : Pubkey
native_sol_mint = 0x69b8857feab8184fb687f634618c035dac439dc1aeb3b5598a0f00000000001

abbrev pub dlmm_event_authority : Pubkey
dlmm_event_authority = 0xb270d67fa98c51cf0213051358962baf35742bed59c9d9445e9c0d0c85c7cd91

abbrev pub pumpswap_event_authority : Pubkey
pumpswap_event_authority = 0xe54a709528839f61c0b9b86079891c139216e47a71b62fb73bec72169458745e

abbrev pub pumpswap_global_config : Pubkey
pumpswap_global_config = 0x890ba644fe1f55aa19f11cd2d2ec14d3233b6e0a4beaeef72b69858e21e170d6

abbrev pub pumpswap_fee_program : Pubkey
pumpswap_fee_program = 0xc35ffa9055a8e568da8f7bc075615274cf1c92ca41f40009c516aa414c27c70

abbrev pub pumpswap_global_volume_accumulator : Pubkey
pumpswap_global_volume_accumulator =
    0xa3d7bb127e58adc12ca68f83437ec2e1c3f9820de93e58f9178a2918ddaaf7b4

abbrev pub pumpswap_buyback_fee_recipient : Pubkey
pumpswap_buyback_fee_recipient = 0x439e6510c03d65fad931e89d04be0bb70d51971f51c415fb344c07db419f2122

abbrev pub pumpswap_protocol_fee_recipients : List Pubkey
pumpswap_protocol_fee_recipients =
    0x4ac2f8d0dd5cbc97e3289c197cb5062a54f3d956b9ce6e5115f96567aa5cb3e6
    ∷ 0x608ccc1dfce961b43b779c191505a6e2d3bf45d5a4db4618ad76c82d61754535
    ∷ 0x638373000ea22cb264d34aff64a04b5efabfbb74ddcd048997b1981547d7d110
    ∷ 0x838474292e675a94b436ecb0a9988942328a83ddc6233802961267c5cd6117cb
    ∷ 0x8d181a0c849fa937a6f34aded3081ef95700aacb0c9bb3d909a4b9147527a4eb
    ∷ 0xd7aa8fb060d8291b4c4d475daff762c96bdc0daceb36c012ead12ed3a9484161
    ∷ 0xe004c87ceb98fa5ce47f803806fd2c7945d29524959aec00ded97814f38f7846
    ∷ 0xff8383818ba8fa28c3cd3b6d5e93f9fab8f0979bc37215acc5b246877ba8c3c9 ∷ []

abbrev pub pumpswap_reserved_fee_recipients : List Pubkey
pumpswap_reserved_fee_recipients =
    0xe893141fb18e9f1574d810e178e19e30604e3175aa2e4a32dfc8600727d10709
    ∷ 0x3584536256094f912819127efa4e446b4333721793d13876f9aadbf3dc7d0b5f
    ∷ 0x6e75018220f942677003237b4d6b453759b4a5c690b59c35d9bb187a090cbd2a
    ∷ 0x33987a9ebb136799ab59925b13e5dc8b3081df005db427c1478fa46ff8c347a0
    ∷ 0x74e9543f3e37a2d046227addcb4e9c774c44258c43edf24aa8aae1f00214665b
    ∷ 0xda4c38cd6db7438f59b408bb9ec3b4ca9e8ad1f1f24653c499b5796c20dbf9b3
    ∷ 0x2ddd9eea3f39b372115c71847c1845cfa536c685074e030e44d021de3ef9e35c
    ∷ 0x4cb780f08ee2fee84bec446a577825da68d439fa8a5da3b0c5cff50f63f4546b ∷ []

abbrev pub route_pump_to_dlmm_disc : List ℕ
route_pump_to_dlmm_disc = 0x8b ∷ 0xe8 ∷ 0x20 ∷ 0x55 ∷ 0xc1 ∷ 0xb0 ∷ 0xc1 ∷ 0xe9 ∷ []

abbrev pub route_dlmm_to_pump_disc : List ℕ
route_dlmm_to_pump_disc = 0x17 ∷ 0x6e ∷ 0xcc ∷ 0x5d ∷ 0xdd ∷ 0x93 ∷ 0x51 ∷ 0x95 ∷ []

abbrev pub route_disc : List ℕ
route_disc = 0x5f ∷ 0x0f ∷ 0x91 ∷ 0x02 ∷ 0x9a ∷ 0x03 ∷ 0x4c ∷ 0xc3 ∷ []

abbrev pub pumpfun_bonding_curve_program : Pubkey
pumpfun_bonding_curve_program = 0x156e0f693665acf44db1568bf175baa5189cb97f5d2ff3b655d2bb6fd6d18b0

abbrev pub serum_program : Pubkey
serum_program = 0xd0751a8282da61305fe299c37b998e58471db1135037310f8be1045a60af6ee

abbrev pub sysvar_rent : Pubkey
sysvar_rent = 0x6a7d517192c5c51218cc94c3d4af17f58daee089ba1fd44e3dbd98a00000000

abbrev pub cpmm_swap_discriminator : List ℕ
cpmm_swap_discriminator = 0xf8 ∷ 0xc6 ∷ 0x9e ∷ 0x91 ∷ 0xe1 ∷ 0x75 ∷ 0x87 ∷ 0xc8 ∷ []

abbrev pub ammv4_swap_discriminator : List ℕ
ammv4_swap_discriminator = 0x09 ∷ 0x00 ∷ 0x00 ∷ 0x00 ∷ 0x00 ∷ 0x00 ∷ 0x00 ∷ 0x00 ∷ []

abbrev pub ammv4_swap_out_discriminator : List ℕ
ammv4_swap_out_discriminator = 0x0a ∷ 0x00 ∷ 0x00 ∷ 0x00 ∷ 0x00 ∷ 0x00 ∷ 0x00 ∷ 0x00 ∷ []

abbrev pub pumpfun_buy_discriminator : List ℕ
pumpfun_buy_discriminator = 0x67 ∷ 0xf4 ∷ 0x52 ∷ 0x1f ∷ 0x2c ∷ 0xf5 ∷ 0x77 ∷ 0x77 ∷ []

abbrev pub pumpfun_sell_discriminator : List ℕ
pumpfun_sell_discriminator = 0x3e ∷ 0x2f ∷ 0x37 ∷ 0x0a ∷ 0xa5 ∷ 0x03 ∷ 0xdc ∷ 0x2a ∷ []

abbrev pub pumpswap_buy_discriminator : List ℕ
pumpswap_buy_discriminator = 0xc6 ∷ 0x2e ∷ 0x15 ∷ 0x52 ∷ 0xb4 ∷ 0xd9 ∷ 0xe8 ∷ 0x70 ∷ []

abbrev pub pumpswap_sell_discriminator : List ℕ
pumpswap_sell_discriminator = 0x33 ∷ 0xe6 ∷ 0x85 ∷ 0xa4 ∷ 0x01 ∷ 0x7f ∷ 0x83 ∷ 0xad ∷ []

abbrev pub dlmm_swap2_discriminator : List ℕ
dlmm_swap2_discriminator = 0x41 ∷ 0x4b ∷ 0x3f ∷ 0x4c ∷ 0xeb ∷ 0x5b ∷ 0x5b ∷ 0x88 ∷ []

abbrev pub usdc_mint : Pubkey
usdc_mint = 0xc6fa7af3bedbad3a3d65f36aabc97431b1bbe4c2d2f6e0e47ca60203452f5d61

abbrev pub usdt_mint : Pubkey
usdt_mint = 0xce010e60afedb22717bd63192f54145a3f965a33bb82d2c7029eb2ce1e208264

abbrev pub cpmm_amm_config : Pubkey
cpmm_amm_config = 0xb3213fba8bf9c87fa91e47819628c383e00bea7e98c7a03e03ba1069cfc3f6f3

abbrev pub whirlpool_config : Pubkey
whirlpool_config = 0x13e441f83913ca68b0634fb025fdeaa88737e84110d1255e357b3377ddee1ccd

abbrev pub sol_decimals : ℕ
sol_decimals = 9

abbrev pub usdc_decimals : ℕ
usdc_decimals = 6

abbrev pub default_decimals : ℕ
default_decimals = 6
