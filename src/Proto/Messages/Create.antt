-- ===== src/Proto/Messages/Create.antt =====
-- proto/messages/create.rs
pub mod Contexts
use rust_smb_server.Prelude.{ℕ, refl, List, ◌==◌, if◌then◌else◌, Option, none, some}
use rust_smb_server.Proto.Layout.{Layout, uint, array, follow, fields}
use rust_smb_server.Proto.FileId.{FileId, file_id_layout}

pub record CreateRequest : Type 0 where
  pub structure_size : ℕ
  pub security_flags : ℕ
  pub requested_oplock_level : ℕ
  pub impersonation_level : ℕ
  pub smb_create_flags : ℕ
  pub reserved : ℕ
  pub desired_access : ℕ
  pub file_attributes : ℕ
  pub share_access : ℕ
  pub create_disposition : ℕ
  pub create_options : ℕ
  pub name_offset : ℕ
  pub name_length : ℕ
  pub create_contexts_offset : ℕ
  pub create_contexts_length : ℕ
  pub name : List ℕ
  pub create_contexts : List ℕ

unfoldable pub create_request : Layout CreateRequest
create_request =
    fields
      (λ (
        structure_size,
        (
          security_flags,
          (
            requested_oplock_level,
            (
              impersonation_level,
              (
                smb_create_flags,
                (
                  reserved,
                  (
                    desired_access,
                    (
                      file_attributes,
                      (
                        share_access,
                        (
                          create_disposition,
                          (
                            create_options,
                            (
                              name_offset,
                              (
                                name_length,
                                (
                                  create_contexts_offset,
                                  (create_contexts_length, (name, create_contexts)),
                                ),
                              ),
                            ),
                          ),
                        ),
                      ),
                    ),
                  ),
                ),
              ),
            ),
          ),
        ),
      ).
        record {
          structure_size = structure_size;
          security_flags = security_flags;
          requested_oplock_level = requested_oplock_level;
          impersonation_level = impersonation_level;
          smb_create_flags = smb_create_flags;
          reserved = reserved;
          desired_access = desired_access;
          file_attributes = file_attributes;
          share_access = share_access;
          create_disposition = create_disposition;
          create_options = create_options;
          name_offset = name_offset;
          name_length = name_length;
          create_contexts_offset = create_contexts_offset;
          create_contexts_length = create_contexts_length;
          name = name;
          create_contexts = create_contexts;
        })
      (λ r. (
        r.structure_size,
        (
          r.security_flags,
          (
            r.requested_oplock_level,
            (
              r.impersonation_level,
              (
                r.smb_create_flags,
                (
                  r.reserved,
                  (
                    r.desired_access,
                    (
                      r.file_attributes,
                      (
                        r.share_access,
                        (
                          r.create_disposition,
                          (
                            r.create_options,
                            (
                              r.name_offset,
                              (
                                r.name_length,
                                (
                                  r.create_contexts_offset,
                                  (r.create_contexts_length, (r.name, r.create_contexts)),
                                ),
                              ),
                            ),
                          ),
                        ),
                      ),
                    ),
                  ),
                ),
              ),
            ),
          ),
        ),
      ))
      (λ r. refl)
      (follow (uint 2) (λ _. follow (uint 1) (λ _. follow (uint 1) (λ _. follow (uint 4) (λ _.
        follow (uint 8) (λ _. follow (uint 8) (λ _. follow (uint 4) (λ _. follow (uint 4) (λ _.
          follow (uint 4) (λ _. follow (uint 4) (λ _. follow (uint 4) (λ _. follow (uint 2) (λ _.
            follow (uint 2) (λ name_length. follow (uint 4) (λ _.
              follow (uint 4) (λ create_contexts_length.
                follow (array name_length) (λ _. array create_contexts_length)))))))))))))))))

pub record CreateResponse : Type 0 where
  pub structure_size : ℕ
  pub oplock_level : ℕ
  pub flags : ℕ
  pub create_action : ℕ
  pub creation_time : ℕ
  pub last_access_time : ℕ
  pub last_write_time : ℕ
  pub change_time : ℕ
  pub allocation_size : ℕ
  pub end_of_file : ℕ
  pub file_attributes : ℕ
  pub reserved2 : ℕ
  pub file_id : FileId
  pub create_contexts_offset : ℕ
  pub create_contexts_length : ℕ
  pub create_contexts : List ℕ

unfoldable pub create_response : Layout CreateResponse
create_response =
    fields
      (λ (
        structure_size,
        (
          oplock_level,
          (
            flags,
            (
              create_action,
              (
                creation_time,
                (
                  last_access_time,
                  (
                    last_write_time,
                    (
                      change_time,
                      (
                        allocation_size,
                        (
                          end_of_file,
                          (
                            file_attributes,
                            (
                              reserved2,
                              (
                                file_id,
                                (create_contexts_offset, (create_contexts_length, create_contexts)),
                              ),
                            ),
                          ),
                        ),
                      ),
                    ),
                  ),
                ),
              ),
            ),
          ),
        ),
      ).
        record {
          structure_size = structure_size;
          oplock_level = oplock_level;
          flags = flags;
          create_action = create_action;
          creation_time = creation_time;
          last_access_time = last_access_time;
          last_write_time = last_write_time;
          change_time = change_time;
          allocation_size = allocation_size;
          end_of_file = end_of_file;
          file_attributes = file_attributes;
          reserved2 = reserved2;
          file_id = file_id;
          create_contexts_offset = create_contexts_offset;
          create_contexts_length = create_contexts_length;
          create_contexts = create_contexts;
        })
      (λ r. (
        r.structure_size,
        (
          r.oplock_level,
          (
            r.flags,
            (
              r.create_action,
              (
                r.creation_time,
                (
                  r.last_access_time,
                  (
                    r.last_write_time,
                    (
                      r.change_time,
                      (
                        r.allocation_size,
                        (
                          r.end_of_file,
                          (
                            r.file_attributes,
                            (
                              r.reserved2,
                              (
                                r.file_id,
                                (
                                  r.create_contexts_offset,
                                  (r.create_contexts_length, r.create_contexts),
                                ),
                              ),
                            ),
                          ),
                        ),
                      ),
                    ),
                  ),
                ),
              ),
            ),
          ),
        ),
      ))
      (λ r. refl)
      (follow (uint 2) (λ _. follow (uint 1) (λ _. follow (uint 1) (λ _. follow (uint 4) (λ _.
        follow (uint 8) (λ _. follow (uint 8) (λ _. follow (uint 8) (λ _. follow (uint 8) (λ _.
          follow (uint 8) (λ _. follow (uint 8) (λ _. follow (uint 4) (λ _. follow (uint 4) (λ _.
            follow file_id_layout (λ _. follow (uint 4) (λ _.
              follow (uint 4)
                (λ create_contexts_length. array create_contexts_length))))))))))))))))

pub data OplockLevel : Type 0 where
  no_oplock ii exclusive batch lease : OplockLevel

-- `OplockLevel::from_u8`
unfoldable pub oplock_level_from_u8 : ℕ → Option OplockLevel
oplock_level_from_u8 v =
    if v == 0x00
    then some no_oplock
    else if v == 0x01
    then some ii
    else if v == 0x08
    then some exclusive
    else if v == 0x09
    then some batch
    else if v == 0xff
    then some lease
    else none
