-- ===== src/Sinks/Console/Streams.antt =====
-- Which stream a console sink writes to.
use logrin.Base.{
  ℕ, ◌≡◌, refl, ==_iff, inl, inr, true, not, ◌&&◌, [], ◌∷◌, ◌==◌, if◌then◌else◌, Bool-cases, arith,
}
use logrin.Sinks.Console.{
  Descriptors, Stream, stdout, stderr, handle_of, close_handle, Console, keeps, with_stream,
}

keeps-eq : (fd : ℕ) (stream : Stream) → keeps fd stream ≡ (fd == handle_of stream)
unfolding keeps
keeps-eq fd stdout = ground arith
keeps-eq fd stderr = ground arith

module _ (io : Descriptors)
    (opens : (h : ℕ)
      → (Descriptors.is_valid io (Descriptors.of_handle io h) ≡ true)
        × (Descriptors.handle io (Descriptors.of_handle io h) ≡ h))
    {D : Type 0} where
  open io use {Descriptor, of_handle, is_valid, handle}

  -- Behind `WithStream` the sink has a valid descriptor for the stream and the formatter that it
  -- had. Its old descriptor is closed exactly if it is valid and stands for another handle. This
  -- holds where a descriptor that is made from a handle is valid and has that handle.
  pub with_stream-handle :
      (stream : Stream) (c : Console Descriptor D)
      → (is_valid (with_stream io stream c).0.descriptor ≡ true)
        × (handle (with_stream io stream c).0.descriptor ≡ handle_of stream)
        × ((with_stream io stream c).0.formatter ≡ c.formatter)
        × ((with_stream io stream c).1 ≡ (
            if is_valid c.descriptor && not (handle c.descriptor == handle_of stream)
            then close_handle c.descriptor ∷ []
            else []))
  unfolding with_stream
  with_stream-handle stream c = elim (Bool-cases (is_valid c.descriptor)) [
    | inr invalid ↦
        rw invalid ((opens (handle_of stream)).0, (opens (handle_of stream)).1, refl, refl)
    | inl valid ↦ elim (Bool-cases (handle c.descriptor == handle_of stream)) [
      | inl same ↦
          rw (valid, keeps-eq (handle c.descriptor) stream, same)
            (valid, (==_iff _ _).0 same, refl, refl)
      | inr other ↦
          rw (valid, keeps-eq (handle c.descriptor) stream, other)
            ((opens (handle_of stream)).0, (opens (handle_of stream)).1, refl, refl)
    ]
  ]
