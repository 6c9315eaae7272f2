-- ===== src/Lib.antt =====
-- natc is the test harness of a database server: a client reads lists of test cases and has them run,
-- a query client runs their statements, and a library of limit points, loaded into the server under
-- test, makes it fail at chosen places or run short of memory and descriptors; a bulk loader fills
-- and saves tables. This library models
-- five parts of it, each from its source; none of them calls another one.
--
-- Base: shared helpers. Numbers are native; a 32-bit number keeps its wrap-around; a C string is
-- the list of its bytes without the zero that ends it.
--
-- Agent: the server side, src/ats2. Maps has std::map as a list of pairs, ServerFile the table of servers
-- and their parameters (ServerManager::load in serverManager.cpp), Inherit the part of Servicer::load in
-- serviceThread.cpp that gives each server the parameters of DEFAULT. Services has the list of running
-- requests (serviceManager.cpp: addService, rmService, handleStatus, handleRun), with the allocated
-- servicers and the mutex; what the mutex and the calls of a servicer answer is an argument
-- (RunAnswers), and Tracking has the steps of requests side by side, each part of one under the mutex or
-- on its own servicer. RecoveryFile has the list of recovery points (RecPointer in recpointManager.cpp), with
-- the buffers of sscanf, and RecoveryScanning what a line gives; strip of the STAF library is an
-- argument, and RecoveryLines the lines that fgets reads. The file of the servers is a list of lines; the
-- cache of loaded files is not modelled.
--
-- Allim: the library of limit points, src/allim/lib/allib.c and src/allim/include/allimPoint.h.
-- State has the shared record `allimPoint` and the world around it: what a process has attached and
-- opened, the chunks of memory and the sockets that it wastes, and what it told the log. Shared has
-- the attachment of the shared memory and the frame that each operation has: attach, take the lock,
-- work, give it back, detach. The operations are Points (allimPointSet, PointGet, PointClear,
-- PointPass, PointDone), Logging (allimEnableLogging, SetLogging, GetLogging), Waste and Limits
-- (allimWasteMemory, FreeMemory, SetMemoryWaste, GetMemoryWaste, allimMemory and the same for the disk)
-- and Sockets (allimDesc). The platform layer acp is not in the repository: what its calls answer is an
-- argument (`Answers`, `Acp`, `Allocations`, `Openings`), and `AcpLaws` states what its string
-- functions do. The loops of the waste run on fuel, the distance to the target, since each round
-- comes nearer by a byte at least; the end of the fuel is an outcome of its own. The chunks are a
-- list of their sizes and not the ring of pointers of the source. The log file, its own lock and the
-- text of the messages are not modelled, nor is the creation of the shared memory but for the record
-- that it starts with.
--
-- CaseManager: the list of test cases, src/atsclnt/caseManager.cpp, caseManager.h and the types of
-- src/ats2/common.h. State has the cases and the type by a file's name (getcasetype), Line the loop
-- over the bytes of a line and Load the rest of CaseManager::load, Merge mergeCase and loadcase. Files
-- are given as lists of lines, and STAFString::replace of the STAF library as a function. The nesting
-- of suites runs on fuel, one unit for each level. Each level keeps its file open, so that the number
-- of files that can be open (open_limit) is enough. The fixed sizes of the line buffers and
-- CaseManager::status, which prints the lists, are not modelled.
--
-- Psql: the query client. Strings has the string helpers of src/psql/src/utString.cpp, Command the
-- copy of a command (iSQLCommand::setAll) and History the saved commands of
-- src/psql/src/iSQLCommandQueue.cpp. The counter of saved commands has no overflow here, and the
-- buffers no length. HostVars and Values have the table of host variables of
-- src/psql/src/iSQLHostVarMgr.cpp: declaration, lookup, values, and the copies that are bound to a
-- statement. The number parsers of the C library are arguments (`Parsers`), a floating value is its
-- bit pattern. An allocation is taken to succeed unless its size is negative as an SInt; that, and an
-- access through a null pointer, end the program (no_memory, null_access).
--
-- Loader: the data files of the bulk loader, src/ploader/src/iloDataFile.cpp and iloDataFile.h. Source
-- has the buffered reading (GetChar), Token the tokenizer (GetToken) with its setters, Record the printing
-- and reading of a record (PrintOneRecord, ReadOneRecord) and the attributes of src/ploader/include/
-- iloTableInfo.h that it fills, Trim rtrim. A file is the list of its bytes. The tokenizer's loop runs
-- on fuel, two more than the bytes to come, since each round reads one; the loop over the attributes on
-- their number and one more. Split describes the tokenizer without its counters. The bytes of a
-- terminator are signed characters, as on the usual platforms. A value that runs over its column's
-- buffer gives no result. strtonumCheck is not modelled. Batches has the loop of iloLoad::LoadwithPrepare in
-- src/ploader/src/iloLoad.cpp, which gathers records in an array and has them executed, with the
-- transactions and the counts; the answers of the database are an argument (Database), and its log
-- files are not modelled. Whole puts the two together for a file: the fetched records are printed one
-- behind the other (the loop of src/ploader/src/iloDownLoad.cpp), and ReadOneRecord is called up to the
-- end of the file, on fuel, one more than the records.
--
-- The modules beside these hold what is proved of them, and each part's Tests the concrete runs.
pub mod Base
pub mod Agent
pub mod Allim
pub mod CaseManager
pub mod Loader
pub mod Psql
