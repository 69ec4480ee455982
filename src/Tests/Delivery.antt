-- ===== src/Tests/Delivery.antt =====
-- Messages, their frames and what they carry, at concrete inputs.
use remus.Prelude.{
  ℕ, ◌≡◌, ◌^◌, refl, true, false, Bool, some, Option, List, [], ◌∷◌, ◌++◌, arith, ltb, ◌↔◌,
}
use remus.Std.Stream.{put_nat, get_nat, get-put_nat, put_nat-append}
use remus.Common.ServiceTypes.{make_mesh, to_int}
use remus.Common.MeshIoType.{MeshIoType}
use remus.Proto.JobRequirements
use remus.Proto.JobRequirements.{JobRequirements}
use remus.Proto.JobContent.{JobContent, no_content, data_size, eq}
use remus.Proto.JobContent.Equality.{eq-path}
use remus.Proto.WorkerJob.{make_job}
use remus.Proto.Socket.{Socket, Frame}
use remus.Proto.Socket.Tries.{IsPatient, header}
use remus.Proto.Message.{data_of, send_message, receive_message}
use remus.Proto.Message.Delivery.{body, receive-send_message}
use remus.Proto.Wire.{to_requirements}
use remus.Proto.Wire.RoundTrip.{IsShort}
use remus.Proto.Wire.Submission.{
  put_submission, to_submission, put_worker_job, get_worker_job, put_result, get_result,
}
use remus.Proto.Wire.Submission.RoundTrip.{IsSendable, get-put_worker_job}
use remus.Proto.Wire.Submission.Sets.{gap}
use remus.Proto.SocketInfo.{tcp, bind}
use remus.Proto.SocketInfo.Binding.{IsFirst, bound_port, bind-IsFirst}
use remus.Proto.Response.Delivery
use remus.Proto.Response.Delivery.{address, receive-send_response}
use remus.Proto.Response.{send_response, receive_response, Response}
use remus.Proto.Job
use remus.Proto.Job.{Job, serialize-of_stream}
use remus.Client
use remus.Client.Delivery.{submit_job-received}
use remus.Worker.MessageRouter
use remus.Worker.JobQueue
use remus.Worker.Worker
use remus.Worker.Worker.{Worker, ask_for_jobs}
use remus.Worker.Worker.Messages.{repeat, ask_for_jobs-decoded}
use remus.Tests.{red, red_job, done}

abbrev socket : Bool → List Frame → Socket
socket req incoming = record {
  is_req_or_rep = req;
  accepts = λ n. true;
  calls = 0;
  outgoing = [];
  incoming = incoming;
  more_to_receive = false;
}

socket-IsPatient : (req : Bool) (incoming : List Frame) → IsPatient (socket req incoming)
unfolding IsPatient
socket-IsPatient req incoming n = refl

abbrev red_types : MeshIoType
red_types = red.mesh_types

abbrev data_frames : List Frame
data_frames = header false ++ (body red_types 5 (7 ∷ 0 ∷ []) ++ [])

receive-send_message_example :
    ((send_message red_types 5 (some (7 ∷ 0 ∷ [])) (socket true [])).0.is_valid ≡ true)
    × ((send_message red_types 5 (some (7 ∷ 0 ∷ [])) (socket true [])).1.outgoing
        ≡ [] ++ (header true ++ body red_types 5 (7 ∷ 0 ∷ [])))
    × (data_of (send_message red_types 5 (some (7 ∷ 0 ∷ [])) (socket true [])).0.storage ≡ [])
    × ((receive_message (λ bytes. red_types) (λ n. 0) (socket false data_frames)).0
        ≡ record { mtype = red_types; stype = 5; is_valid = true; storage = some (7 ∷ 0 ∷ []) })
    × ((receive_message (λ bytes. red_types) (λ n. 0) (socket false data_frames)).1.incoming ≡ [])
unfolding data_of
receive-send_message_example =
    receive-send_message (λ bytes. red_types) (λ n. 0) red_types 5 (some (7 ∷ 0 ∷ []))
      (socket true []) (socket false data_frames) [] (omega arith) (omega arith) (omega arith)
      (socket-IsPatient true []) (socket-IsPatient false data_frames) refl

red-IsShort : IsShort red
red-IsShort = record {
  input_type = omega arith;
  output_type = omega arith;
  worker_name = omega arith;
  tag = omega arith;
  requirements = omega arith;
}

red_job-IsSendable : IsSendable red_job
red_job-IsSendable = record {
  types = (omega arith, omega arith);
  requirements = red-IsShort;
  map = (tt, tt);
  entries = omega arith;
  contents = (omega arith, (omega arith, omega arith), tt);
}

abbrev server_frames : List Frame
server_frames = header false ++ (body red_types 5 (put_submission red_job []) ++ [])

abbrev read_uuid : List ℕ → Option (ℕ × List ℕ)
read_uuid = get_nat (2 ^ 128)

abbrev text : ℕ → List ℕ
text u = put_nat u []

-- An answer that is not read.
abbrev no_answer : Response
no_answer = record { stype = 0; is_valid = false; storage = [] }

submit_job-received_example :
    ((Client.submit_job text (λ cs. 0) read_uuid red_job (socket true []) no_answer).0.outgoing
      ≡ [] ++ (header true ++ body red_types 5 (put_submission red_job [])))
    × ((receive_message (λ bytes. red_types) (λ n. 0) (socket false server_frames)).0.is_valid
        ≡ true)
    × ((receive_message (λ bytes. red_types) (λ n. 0) (socket false server_frames)).0.stype
        ≡ to_int make_mesh)
    × ((receive_message (λ bytes. red_types) (λ n. 0) (socket false server_frames)).0.mtype
        ≡ red_types)
    × (to_submission (
          data_of
            (receive_message (λ bytes. red_types) (λ n. 0) (socket false server_frames)).0.storage)
        ≡ some (red_job, 10 ∷ 10 ∷ 10 ∷ []))
submit_job-received_example =
    submit_job-received text (λ cs. 0) read_uuid (λ bytes. red_types) (λ n. 0) red_job
      (socket true []) (socket false server_frames) no_answer [] red_job-IsSendable
      (socket-IsPatient true []) (socket-IsPatient false server_frames) refl

get-put_worker_job_example :
    (get_worker_job read_uuid (put_worker_job put_nat (make_job 1 red_job) [])
      ≡ some (make_job 1 red_job, gap red_job.content (10 ∷ [])))
    × (get_result read_uuid (put_result put_nat done []) ≡ some (done, 10 ∷ []))
get-put_worker_job_example =
    get-put_worker_job put_nat read_uuid (λ u rest h. get-put_nat (2 ^ 128) u (10 ∷ rest) h refl) 1
      red_job done [] (omega arith) red_job-IsSendable (omega arith) (omega arith)

abbrev red_worker : Worker
red_worker = Worker.make red (MessageRouter.make 0) JobQueue.make

ask_for_jobs-decoded_example :
    (buffer : List ℕ) × (light : JobRequirements) × ((ask_for_jobs red_worker 2).sent
      ≡ repeat 2
          (record { mtype = red_types; service = make_mesh; data' = buffer })
          red_worker.sent)
    × (to_requirements buffer ≡ some (light, 10 ∷ 10 ∷ []))
    × (JobRequirements.eq light red ≡ true)
unfolding Worker.make MessageRouter.make
ask_for_jobs-decoded_example = ask_for_jobs-decoded red_worker 2 refl red-IsShort

abbrev memory_content : JobContent
memory_content = record no_content { contents = 1 ∷ 2 ∷ [] }

eq-path_example :
    (eq (λ bytes. 0 ∷ []) memory_content no_content ≡ true) ↔ (memory_content ≡ no_content)
unfolding data_size
eq-path_example = eq-path (λ bytes. 0 ∷ []) memory_content no_content (omega arith)

-- Ports from 50510 on are free.
bind-IsFirst_example :
    IsFirst
      (λ port. ltb 50509 port)
      50505
      65535
      (bound_port (bind (λ port. ltb 50509 port) false (tcp (49 ∷ []) 50505)))
bind-IsFirst_example = bind-IsFirst (λ port. ltb 50509 port) false (49 ∷ []) 50505 (omega arith)

-- The job 5 as it is written.
abbrev written_job : List ℕ
written_job = 49 ∷ 10 ∷ 2 ∷ 10 ∷ 49 ∷ 10 ∷ 3 ∷ 10 ∷ 10 ∷ 53 ∷ 10 ∷ []

abbrev read_job : Job
read_job = record { id = 5; type = red_types; cached_serialized_form = 10 ∷ [] }

written_job-read : Job.of_stream text (λ cs. 5) written_job ≡ some read_job
unfolding Job.of_stream get_nat remus.Std.Stream.take_digits
    remus.Common.ConversionHelper.extract_string
written_job-read = refl

serialize-of_stream_example : Job.serialize text (λ cs. 5) read_job ≡ 10 ∷ 10 ∷ []
serialize-of_stream_example =
    serialize-of_stream text (λ cs. 5) written_job read_job written_job-read

-- A response to nobody in particular.
abbrev response_frames : List Frame
response_frames = header true ++ (Delivery.body 7 (1 ∷ 2 ∷ []) ++ [])

receive-send_response_example :
    ((send_response 7 (1 ∷ 2 ∷ []) (socket false []) []).0.is_valid ≡ true)
    × ((send_response 7 (1 ∷ 2 ∷ []) (socket false []) []).1.outgoing
        ≡ [] ++ (address [] ++ (header false ++ Delivery.body 7 (1 ∷ 2 ∷ []))))
    × ((receive_response (λ n. 0) (socket true response_frames)).0
        ≡ record { stype = 7; is_valid = true; storage = 1 ∷ 2 ∷ [] })
    × ((receive_response (λ n. 0) (socket true response_frames)).1.incoming ≡ [])
receive-send_response_example =
    receive-send_response (λ n. 0) 7 (1 ∷ 2 ∷ []) [] (socket false []) (socket true response_frames)
      [] (omega arith) (socket-IsPatient false []) (socket-IsPatient true response_frames) refl
