-- ===== src/Vfs/Handle/PoolExamples.antt =====
-- A slice stored through the codec and the pool of the program, and read back from its disk.
use zenofs.Common.{ℕ, ◌+◌, ◌*◌, ◌≡◌, refl, [], ◌∷◌, ok, find_by, exists_in, select, update_where}
use zenofs.Pool.Disks.{handler_for}
use zenofs.Pool.Stripes.Local.{Files, handlers}
use zenofs.Pool.Stripes.Rebuild.Examples.{primitives, both_there}
use zenofs.Pool.Write.{
  Fresh, get_pool, get_new_chunks, allocate, new_slots, stripe_slots, fill, save_filled,
}
use zenofs.Pool.Write.Queue.{
  write_rows, insert_row, sort_rows, done_from, delete_ids, flush, recalc_chunks_from_disk,
}
use zenofs.Pool.Write.Files.{
  persist_chunk_data, write_chunk_files, write_chunk_file, first_err, result_rows,
}
use zenofs.Pool.Write.Calls.{add_chunks}
use zenofs.Pool.Write.Examples.{db, fresh, two_bytes}
use zenofs.Pool.Cache.Reads.{
  read_chunks, check_read, in_order, read_all, read_one, read_source, copy_of,
}
use zenofs.Vfs.Crypto.{hash_sum}
use zenofs.Vfs.Handle.PoolStore.{PoolState, add_one, read_back}

-- Each call draws ids and a path of its own.
abbrev fresh_in : ℕ → Fresh
fresh_in n = record fresh {
  chunk_id = λ i. 100 + (10 * n + i);
  paths = λ k. ok ((7 ∷ n ∷ []) ∷ (7 ∷ n ∷ []) ∷ []);
}

abbrev start : PoolState Files
start = record { db = db; files = both_there; calls = 0 }

abbrev after : PoolState Files
after = (add_one primitives handlers fresh_in (λ n. n) 1 start two_bytes).1

first_reads_back : (read_back primitives handlers fresh_in (λ n. n) 1 after 100).0 ≡ ok two_bytes
unfolding add_one read_back add_chunks get_new_chunks get_pool allocate new_slots stripe_slots fill
    save_filled select find_by hash_sum exists_in persist_chunk_data write_chunk_files
    write_chunk_file handler_for first_err read_chunks check_read in_order read_all read_one
    read_source copy_of flush write_rows insert_row sort_rows done_from delete_ids result_rows
    recalc_chunks_from_disk update_where
first_reads_back = refl
