-- ===== src/Clerk/Tests.antt =====
-- The client's loops at concrete responses.
use my_kv_storage_base_raft.Common.{◌≡◌, refl, some, [], ◌∷◌, List}
use my_kv_storage_base_raft.Clerk.{
  Response, failed, response, took, gave_up, write_loop, ok_text, wrong_leader_text,
}
use my_kv_storage_base_raft.Clerk.Retries.{Explains, write_loop-Explains, write_loop-gave_up}

abbrev responses : List Response
responses = failed ∷ response wrong_leader_text [] ∷ response ok_text [] ∷ failed ∷ []

write_loop-Explains_example : Explains responses (took []) (failed ∷ [])
unfolding write_loop
write_loop-Explains_example = write_loop-Explains 0 responses (took []) (failed ∷ []) refl

write_loop-gave_up_example :
    write_loop 98 (failed ∷ failed ∷ failed ∷ response ok_text [] ∷ [])
    ≡ some (gave_up, response ok_text [] ∷ [])
write_loop-gave_up_example = write_loop-gave_up 98 2 (response ok_text [] ∷ []) refl
