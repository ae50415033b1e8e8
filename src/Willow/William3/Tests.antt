-- ===== src/Willow/William3/Tests.antt =====
-- Digests of integrations/willow-drop/william3.ts at the inputs of drop.test.ts.
use atomic_plugins.Prelude.{◌≡◌, refl, [], ◌∷◌}
use atomic_plugins.Willow.William3.{
  iv, msg_schedule, compress, rounds, round, g, rotr, block_words, word_bytes, hash_blocks, hash1,
  hash_chunk, label, william3,
}

empty_digest :
    william3 []
    ≡ 150 ∷ 211 ∷ 76 ∷ 84 ∷ 120 ∷ 69 ∷ 130 ∷ 49 ∷ 227 ∷ 100 ∷ 118 ∷ 121 ∷ 82 ∷ 170 ∷ 234 ∷ 2 ∷ 163
      ∷ 29 ∷ 34 ∷ 3 ∷ 198 ∷ 111 ∷ 67 ∷ 101 ∷ 105 ∷ 46 ∷ 249 ∷ 31 ∷ 53 ∷ 16 ∷ 104 ∷ 210 ∷ []
unfolding william3 label hash_chunk hash1 compress rounds round g rotr block_words word_bytes iv
    msg_schedule
empty_digest = refl

example_digest :
    william3 (
      83 ∷ 101 ∷ 101 ∷ 32 ∷ 97 ∷ 108 ∷ 108 ∷ 32 ∷ 116 ∷ 104 ∷ 101 ∷ 32 ∷ 115 ∷ 105 ∷ 103 ∷ 104 ∷ 116
      ∷ 115 ∷ 33 ∷ [])
    ≡ 91 ∷ 29 ∷ 243 ∷ 211 ∷ 140 ∷ 181 ∷ 127 ∷ 138 ∷ 116 ∷ 79 ∷ 56 ∷ 47 ∷ 85 ∷ 50 ∷ 157 ∷ 82 ∷ 55
      ∷ 192 ∷ 253 ∷ 122 ∷ 72 ∷ 250 ∷ 70 ∷ 43 ∷ 56 ∷ 116 ∷ 99 ∷ 53 ∷ 188 ∷ 85 ∷ 83 ∷ 234 ∷ []
unfolding william3 label hash_chunk hash1 hash_blocks compress rounds round g rotr block_words
    word_bytes iv msg_schedule
example_digest = refl
